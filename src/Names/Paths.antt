-- ===== src/Names/Paths.antt =====
-- The last part of a path.
use ni_fat.Base.{
  ℕ, zero, suc, ◌+◌, ◌≡◌, ◌≢◌, refl, ap, ◌∙◌, arith, All, ne→==, List, [], ◌∷◌, ◌++◌, length,
  get_or, drop, length-append,
}
use ni_fat.Strings.{strlen, strcpy}
use ni_fat.Disk.Transfer.{drop-append}
use ni_fat.Names.{splitter, find_splitter, extract_name}

-- a byte of the name part: neither a terminator nor a splitter
abbrev pub IsPart : ℕ → Type 0
IsPart c = (c ≢ 0) × (c ≢ splitter)

strlen-nonzero : (xs : List ℕ) → All (λ c. c ≢ 0) xs → strlen xs ≡ length xs
unfolding strlen
strlen-nonzero [] h = refl
strlen-nonzero (c ∷ cs) h = rw (ne→== h.0) (ap suc (strlen-nonzero cs h.1))

get_or-behind :
    (dir name : List ℕ) (i : ℕ) → get_or (dir ++ name) (length dir + i) 0 ≡ get_or name i 0
get_or-behind [] name i = let e : 0 + i ≡ i = omega arith in rw e refl
get_or-behind (d ∷ ds) name i =
    let e : suc (length ds) + i ≡ suc (length ds + i) = omega arith in
    rw e (get_or-behind ds name i)

get_or-part : (name : List ℕ) (i : ℕ) → All IsPart name → get_or name i 0 ≢ splitter
get_or-part [] i h = λ e. absurd (omega (arith, e))
get_or-part (c ∷ cs) zero h = h.0.1
get_or-part (c ∷ cs) (suc i) h = get_or-part cs i h.1

find_splitter-here : (path : List ℕ) (i : ℕ) → get_or path i 0 ≡ splitter → find_splitter path i ≡ i
unfolding find_splitter
find_splitter-here path zero h = refl
find_splitter-here path (suc i) h = rw h refl

-- going back from the name part stops at the splitter in front of it
find_splitter-last :
    (dir name : List ℕ) (i k : ℕ)
    → All IsPart name
    → i ≡ length dir + k
    → find_splitter (dir ++ splitter ∷ name) i ≡ length dir
unfolding find_splitter
find_splitter-last dir name i zero h e =
    let here : i ≡ length dir + 0 = omega (arith, e) in
    find_splitter-here (dir ++ splitter ∷ name) i (rw here (get_or-behind dir (splitter ∷ name) 0))
    ∙ omega (arith, e)
find_splitter-last dir name zero (suc k) h e = absurd (omega (arith, e))
find_splitter-last dir name (suc i) (suc k) h e =
    let part : get_or (dir ++ splitter ∷ name) (suc i) 0 ≢ splitter =
      rw e (rw (get_or-behind dir (splitter ∷ name) (suc k)) (get_or-part name k h)) in
    rw (ne→== part) (find_splitter-last dir name i k h (omega (arith, e)))

All-path :
    (dir name : List ℕ)
    → All (λ c. c ≢ 0) dir
    → All IsPart name
    → All (λ c. c ≢ 0) (dir ++ splitter ∷ name)
All-path [] [] h part = ((λ e. absurd (omega (arith, e))), tt)
All-path [] (c ∷ cs) h part =
    ((λ e. absurd (omega (arith, e))), (part.0.0, (All-path [] cs h part.1).1))
All-path (d ∷ ds) name h part = (h.0, All-path ds name h.1 part)

drop-suc : (n : ℕ) (xs : List ℕ) → drop (suc n) xs ≡ drop 1 (drop n xs)
drop-suc zero xs = refl
drop-suc (suc n) [] = refl
drop-suc (suc n) (x ∷ xs) = drop-suc n xs

-- extract_name copies the part behind the last splitter of a path, which neither holds.
pub extract_name-part :
    (dir name dst : List ℕ)
    → All (λ c. c ≢ 0) dir
    → All IsPart name
    → extract_name (dir ++ splitter ∷ name) dst ≡ strcpy dst name
unfolding extract_name
extract_name-part dir name dst nonzero part =
    let path = dir ++ splitter ∷ name in
    let size : strlen path ≡ length dir + suc (length name) =
      strlen-nonzero path (All-path dir name nonzero part) ∙ length-append dir (splitter ∷ name) in
    let last : find_splitter path (strlen path) ≡ length dir =
      find_splitter-last dir name (strlen path) (suc (length name)) part size in
    let here : get_or path (length dir) 0 ≡ splitter =
      let e : length dir ≡ length dir + 0 = omega arith in
      rw e (get_or-behind dir (splitter ∷ name) 0) in
    rw last (
      rw here (
        ap (strcpy dst)
          (drop-suc (length dir) path ∙ ap (drop 1) (drop-append dir (splitter ∷ name)))))
