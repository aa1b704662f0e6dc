-- ===== src/Names/Roundtrip.antt =====
-- A name of at most eight bytes with an extension of at most three comes back from the disk in capitals.
use ni_fat.Base.{
  ℕ, zero, suc, ◌+◌, ◌-◌, ◌≤◌, ◌<◌, ◌≡◌, ◌≢◌, refl, sym, ap, ◌∙◌, arith, if◌then◌else◌, true, All,
  map, ne→==, List, [], ◌∷◌, ◌++◌, length, take, drop, replicate, length-append, set, length-map,
}
use mathlib.Core.List.{append_assoc}
use ni_fat.Strings.{uppercase, to_upper}
use ni_fat.Disk.Transfer.{drop-append}
use ni_fat.Names.{
  dot, space, until_space, has_ext, dotted_text, fatname_to_name, take_base, skip_dot, pad, eleven,
  name_to_fatname,
}
use ni_fat.Names.Shape.{length-pad}

-- neither a terminator nor a dot nor a space
abbrev pub IsPlain : ℕ → Type 0
IsPlain c = (c ≢ 0) × (c ≢ dot) × (c ≢ space)

unfoldable pub dotted : List ℕ → List ℕ
dotted [] = []
dotted (c ∷ cs) = dot ∷ c ∷ cs

-- a base name and its extension as one name
unfoldable pub short : List ℕ → List ℕ → List ℕ
short base ext = base ++ dotted ext

take_base-short :
    (n : ℕ) (base ext : List ℕ)
    → All IsPlain base
    → length base ≤ n
    → take_base n (base ++ dotted ext) ≡ base
unfolding take_base dotted
take_base-short zero [] ext plain fits = refl
take_base-short zero (c ∷ cs) ext plain fits = absurd (omega arith)
take_base-short (suc n) [] [] plain fits = refl
take_base-short (suc n) [] (e ∷ es) plain fits = refl
take_base-short (suc n) (c ∷ cs) ext plain fits =
    rw (ne→== plain.0.1) (ap (λ r. c ∷ r) (take_base-short n cs ext plain.1 (omega arith)))

skip_dot-dotted : (ext : List ℕ) → skip_dot (dotted ext) ≡ ext
unfolding skip_dot dotted
skip_dot-dotted [] = refl
skip_dot-dotted (c ∷ cs) = refl

take-all : (n : ℕ) (xs : List ℕ) → length xs ≤ n → take n xs ≡ xs
take-all zero [] h = refl
take-all zero (x ∷ xs) h = absurd (omega arith)
take-all (suc n) [] h = refl
take-all (suc n) (x ∷ xs) h = ap (λ r. x ∷ r) (take-all n xs (omega arith))

pad-append : (n m : ℕ) (xs ys : List ℕ) → length xs ≡ n → pad (n + m) (xs ++ ys) ≡ xs ++ pad m ys
unfolding pad
pad-append n m xs ys h =
    let left : n + m - length (xs ++ ys) ≡ m - length ys = omega (arith, length-append xs ys) in
    rw left (append_assoc xs ys _)

-- the eleven bytes of a base name and an extension that fit
eleven-short :
    (base ext : List ℕ)
    → All IsPlain base
    → 0 < length base
    → length base ≤ 8
    → length ext ≤ 3
    → eleven (short base ext) ≡ pad 8 base ++ pad 3 ext
unfolding eleven short
eleven-short [] ext plain some_base fits ext_fits = absurd (omega arith)
eleven-short (c ∷ cs) ext plain some_base fits ext_fits =
    let front = take_base-short 8 (c ∷ cs) ext plain fits in
    let behind = drop-append (c ∷ cs) (dotted ext) ∙ refl in
    rw (ne→== plain.0.1) (
      rw front (
        rw behind (
          rw (skip_dot-dotted ext) (
            rw (take-all 3 ext ext_fits)
              (pad-append 8 3 (pad 8 (c ∷ cs)) ext (length-pad 8 (c ∷ cs) fits))))))

uppercase-append :
    (xs ys : List ℕ) → All (λ c. c ≢ 0) xs → uppercase (xs ++ ys) ≡ map to_upper xs ++ uppercase ys
unfolding uppercase
uppercase-append [] ys nonzero = refl
uppercase-append (c ∷ cs) ys nonzero =
    rw (ne→== nonzero.0) (ap (λ r. to_upper c ∷ r) (uppercase-append cs ys nonzero.1))

to_upper-ne : (c k : ℕ) → k < 65 → c ≢ k → to_upper c ≢ k
unfolding to_upper
to_upper-ne c k small h = ground arith

to_upper-IsPlain : (c : ℕ) → IsPlain c → IsPlain (to_upper c)
to_upper-IsPlain c plain = (
  to_upper-ne c 0 (omega arith) plain.0,
  to_upper-ne c dot (omega arith) plain.1,
  to_upper-ne c space (omega arith) plain.2,
)

All-to_upper : (xs : List ℕ) → All IsPlain xs → All IsPlain (map to_upper xs)
All-to_upper [] plain = tt
All-to_upper (c ∷ cs) plain = (to_upper-IsPlain c plain.0, All-to_upper cs plain.1)

All-nonzero : (xs : List ℕ) → All IsPlain xs → All (λ c. c ≢ 0) xs
All-nonzero [] plain = tt
All-nonzero (c ∷ cs) plain = (plain.0.0, All-nonzero cs plain.1)

uppercase-spaces :
    (n : ℕ) (ys : List ℕ) → uppercase (replicate n space ++ ys) ≡ replicate n space ++ uppercase ys
unfolding uppercase to_upper
uppercase-spaces zero ys = refl
uppercase-spaces (suc n) ys = ap (λ r. space ∷ r) (uppercase-spaces n ys)

uppercase-pad :
    (n : ℕ) (xs ys : List ℕ)
    → All IsPlain xs
    → uppercase (pad n xs ++ ys) ≡ pad n (map to_upper xs) ++ uppercase ys
unfolding pad
uppercase-pad n xs ys plain =
    let filling = replicate (n - length xs) space in
    ap uppercase (append_assoc xs filling ys)
    ∙ uppercase-append xs (filling ++ ys) (All-nonzero xs plain)
    ∙ ap (λ (r : List ℕ). map to_upper xs ++ r) (uppercase-spaces (n - length xs) ys)
    ∙ rw (length-map xs to_upper) (sym (append_assoc (map to_upper xs) filling (uppercase ys)))

until_space-pad :
    (n : ℕ) (xs ys : List ℕ) → All IsPlain xs → length xs ≤ n → until_space n (pad n xs ++ ys) ≡ xs
unfolding until_space pad
until_space-pad zero [] ys plain fits = refl
until_space-pad zero (c ∷ cs) ys plain fits = absurd (omega arith)
until_space-pad (suc n) [] ys plain fits = let all : suc n - 0 ≡ suc n = omega arith in rw all refl
until_space-pad (suc n) (c ∷ cs) ys plain fits =
    let left : suc n - suc (length cs) ≡ n - length cs = omega arith in
    rw left (rw (ne→== plain.0.2) (ap (λ r. c ∷ r) (until_space-pad n cs ys plain.1 (omega arith))))

set-append : (xs ys : List ℕ) (n v : ℕ) → length xs ≡ n → set (xs ++ ys) n v ≡ xs ++ set ys 0 v
set-append [] ys zero v h = refl
set-append [] ys (suc n) v h = absurd (omega arith)
set-append (x ∷ xs) ys zero v h = absurd (omega arith)
set-append (x ∷ xs) ys (suc n) v h = ap (λ r. x ∷ r) (set-append xs ys n v (omega arith))

-- the array that the name is stored in
pub stored :
    (base ext fatname : List ℕ)
    → All IsPlain base
    → All IsPlain ext
    → 0 < length base
    → length base ≤ 8
    → length ext ≤ 3
    → name_to_fatname (short base ext) fatname
      ≡ pad 8 (map to_upper base)
        ++ (pad 3 (map to_upper ext) ++ set (uppercase (drop 11 fatname)) 0 0)
unfolding name_to_fatname
stored base ext fatname plain ext_plain some_base fits ext_fits =
    let front = pad 8 (map to_upper base) in
    let back = pad 3 (map to_upper ext) in
    let rest = uppercase (drop 11 fatname) in
    let letters : uppercase (eleven (short base ext) ++ drop 11 fatname) ≡ (front ++ back) ++ rest =
      ap (λ (r : List ℕ). uppercase (r ++ drop 11 fatname))
        (eleven-short base ext plain some_base fits ext_fits)
      ∙ ap uppercase (append_assoc (pad 8 base) (pad 3 ext) (drop 11 fatname))
      ∙ uppercase-pad 8 base (pad 3 ext ++ drop 11 fatname) plain
      ∙ ap (λ (r : List ℕ). front ++ r) (uppercase-pad 3 ext (drop 11 fatname) ext_plain)
      ∙ sym (append_assoc front back rest) in
    let size : length (front ++ back) ≡ 11 = omega (
      arith,
      length-append front back,
      length-pad 8 (map to_upper base) (omega (arith, length-map base to_upper)),
      length-pad 3 (map to_upper ext) (omega (arith, length-map ext to_upper)),
    ) in
    ap (λ (r : List ℕ). set r 11 0) letters
    ∙ set-append (front ++ back) rest 11 0 size
    ∙ append_assoc front back (set rest 0 0)

-- the text that is read out of such an array
has_ext-pad : (c : ℕ) (cs ys : List ℕ) → IsPlain c → has_ext 3 (pad 3 (c ∷ cs) ++ ys) ≡ true
unfolding has_ext pad
has_ext-pad c cs ys plain = rw (ne→== plain.2) refl

extension :
    (ext ys : List ℕ)
    → All IsPlain ext
    → length ext ≤ 3
    → (if has_ext 3 (pad 3 ext ++ ys) then dot ∷ [] else []) ++ until_space 3 (pad 3 ext ++ ys)
      ≡ dotted ext
extension [] ys plain fits =
    unfold has_ext in unfold until_space in unfold pad in unfold dotted in refl
extension (c ∷ cs) ys plain fits =
    unfold dotted in
    rw (has_ext-pad c cs ys plain.0) (ap (λ r. dot ∷ r) (until_space-pad 3 (c ∷ cs) ys plain fits))

map-append : (f : ℕ → ℕ) (xs ys : List ℕ) → map f (xs ++ ys) ≡ map f xs ++ map f ys
map-append f [] ys = refl
map-append f (x ∷ xs) ys = ap (λ r. f x ∷ r) (map-append f xs ys)

map-short :
    (base ext : List ℕ)
    → map to_upper (short base ext) ≡ short (map to_upper base) (map to_upper ext)
unfolding short dotted to_upper
map-short base [] = map-append to_upper base []
map-short base (c ∷ cs) = map-append to_upper base (dotted (c ∷ cs))

dotted_text-padded :
    (base ext ys : List ℕ)
    → All IsPlain base
    → All IsPlain ext
    → length base ≤ 8
    → length ext ≤ 3
    → dotted_text (pad 8 base ++ (pad 3 ext ++ ys)) ≡ short base ext
unfolding dotted_text short
dotted_text-padded base ext ys plain ext_plain fits ext_fits =
    let behind : drop 8 (pad 8 base ++ (pad 3 ext ++ ys)) ≡ pad 3 ext ++ ys =
      ap (λ (m : ℕ). drop m (pad 8 base ++ (pad 3 ext ++ ys))) (sym (length-pad 8 base fits))
      ∙ drop-append (pad 8 base) (pad 3 ext ++ ys) in
    rw (until_space-pad 8 base (pad 3 ext ++ ys) plain fits)
      (rw behind (ap (λ (r : List ℕ). base ++ r) (extension ext ys ext_plain ext_fits)))

fatname_to_name-plain :
    (c : ℕ) (cs name text : List ℕ)
    → c ≢ dot
    → dotted_text (c ∷ cs) ≡ text
    → fatname_to_name (c ∷ cs) name ≡ text ++ (0 ∷ drop (length text + 1) name)
unfolding fatname_to_name
fatname_to_name-plain c cs name text plain h = rw (ne→== plain) (rw h refl)

-- A name of one to eight plain bytes and an extension of at most three, written to the disk and read
-- back, is the name in capitals with its terminator; neither array matters.
pub fatname_to_name-name_to_fatname :
    (base ext fatname name : List ℕ)
    → All IsPlain base
    → All IsPlain ext
    → 0 < length base
    → length base ≤ 8
    → length ext ≤ 3
    → fatname_to_name (name_to_fatname (short base ext) fatname) name
      ≡ map to_upper (short base ext)
        ++ (0 ∷ drop (length (map to_upper (short base ext)) + 1) name)
fatname_to_name-name_to_fatname [] ext fatname name plain ext_plain some_base fits ext_fits =
    absurd (omega arith)
fatname_to_name-name_to_fatname (c ∷ cs) ext fatname name plain ext_plain some_base fits ext_fits =
    let rest = set (uppercase (drop 11 fatname)) 0 0 in
    let caps = map to_upper ext in
    rw (stored (c ∷ cs) ext fatname plain ext_plain some_base fits ext_fits) (
      unfold pad in
      fatname_to_name-plain (to_upper c) _ name (map to_upper (short (c ∷ cs) ext))
        (to_upper-IsPlain c plain.0).1
        (dotted_text-padded (map to_upper (c ∷ cs)) caps rest (All-to_upper (c ∷ cs) plain)
            (All-to_upper ext ext_plain) (omega (arith, length-map (c ∷ cs) to_upper))
            (omega (arith, length-map ext to_upper))
          ∙ sym (map-short (c ∷ cs) ext)))
