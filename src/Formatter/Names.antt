-- ===== src/Formatter/Names.antt =====
-- formatter/nifat32formatter.c and std/fatname.c: `_to_83_name` and `nft32_name_to_fatname` on names that
-- fit.
use mathlib.Core.List.{append_assoc, append-nil}
use ni_fat.Base.{
  ℕ, zero, suc, ◌+◌, ◌-◌, ◌<◌, ◌≤◌, ◌≡◌, refl, sym, ap, ap₂, ◌∙◌, arith, All, ne→==, ltb, false,
  List, [], ◌∷◌, ◌++◌, length, take, drop, set, map, replicate, length-append, length-map, none,
  some,
}
use ni_fat.Strings.{to_upper, uppercase}
use ni_fat.Disk.Transfer.{take-append}
use ni_fat.Names.{dot, space, pad, name_to_fatname}
use ni_fat.Names.Shape.{length-pad}
use ni_fat.Names.Roundtrip.{IsPlain, dotted, short, stored}
use ni_fat.Formatter.Files.{last_dot, base_and_ext, fill_upper, to_83_name}

fill_upper-pad : (n : ℕ) (xs : List ℕ) → length xs ≤ n → fill_upper n xs ≡ pad n (map to_upper xs)
unfolding fill_upper pad
fill_upper-pad zero [] fits = refl
fill_upper-pad zero (c ∷ cs) fits = absurd (omega arith)
fill_upper-pad (suc n) [] fits =
    let all : n - 0 ≡ n = omega arith in
    let whole : suc n - 0 ≡ suc n = omega arith in
    rw whole (
      ap (λ (r : List ℕ). space ∷ r)
        (fill_upper-pad n [] (omega arith) ∙ ap (λ (k : ℕ). replicate k space) all))
fill_upper-pad (suc n) (c ∷ cs) fits =
    let left : suc n - suc (length (map to_upper cs)) ≡ n - length (map to_upper cs) =
      omega arith in
    rw left (ap (λ (r : List ℕ). to_upper c ∷ r) (fill_upper-pad n cs (omega arith)))

-- a plain text has no dot
last_dot-plain : (xs : List ℕ) → All IsPlain xs → last_dot xs ≡ none
unfolding last_dot
last_dot-plain [] plain = refl
last_dot-plain (c ∷ cs) plain = rw (last_dot-plain cs plain.1, last_dot) (rw (ne→== plain.0.1) refl)

last_dot-dotted :
    (xs : List ℕ) (e : ℕ) (es : List ℕ)
    → All IsPlain (e ∷ es)
    → last_dot (xs ++ dotted (e ∷ es)) ≡ some (length xs)
unfolding last_dot dotted
last_dot-dotted [] e es plain = rw (last_dot-plain (e ∷ es) plain, last_dot) refl
last_dot-dotted (c ∷ cs) e es plain = rw (last_dot-dotted cs e es plain, last_dot) refl

take-all : (n : ℕ) (xs : List ℕ) → length xs ≤ n → take n xs ≡ xs
take-all zero [] h = refl
take-all zero (x ∷ xs) h = absurd (omega arith)
take-all (suc n) [] h = refl
take-all (suc n) (x ∷ xs) h = ap (λ r. x ∷ r) (take-all n xs (omega arith))

drop-behind : (xs : List ℕ) (d : ℕ) (ys : List ℕ) → drop (length xs + 1) (xs ++ (d ∷ ys)) ≡ ys
drop-behind [] d ys = refl
drop-behind (x ∷ xs) d ys =
    let e : suc (length xs) + 1 ≡ suc (length xs + 1) = omega arith in rw e (drop-behind xs d ys)

base_and_ext-short :
    (c : ℕ) (cs ext : List ℕ)
    → All IsPlain (c ∷ cs)
    → All IsPlain ext
    → length (c ∷ cs) ≤ 8
    → length ext ≤ 3
    → base_and_ext (short (c ∷ cs) ext) (last_dot (short (c ∷ cs) ext)) ≡ (c ∷ cs, ext)
unfolding short base_and_ext dotted
base_and_ext-short c cs [] plain ext_plain fits ext_fits = rw (append-nil (c ∷ cs)) (
    ap (base_and_ext (c ∷ cs)) (last_dot-plain (c ∷ cs) plain)
    ∙ ap (λ (b : List ℕ). (b, [])) (take-all 8 (c ∷ cs) fits))
base_and_ext-short c cs (e ∷ es) plain ext_plain fits ext_fits =
    let name = (c ∷ cs) ++ (dot ∷ e ∷ es) in
    let n : ℕ = suc (length cs) in
    let room : ltb 8 n ≡ false = ground arith in
    ap (base_and_ext name) (unfold dotted in last_dot-dotted (c ∷ cs) e es ext_plain)
    ∙ rw room (
        ap₂ (λ (b x : List ℕ). (b, x)) (take-append (c ∷ cs) (dot ∷ e ∷ es))
          (ap (take 3) (drop-behind (c ∷ cs) dot (e ∷ es)) ∙ take-all 3 (e ∷ es) ext_fits))

-- For a name of one to eight plain bytes with an extension of at most three, _to_83_name of the
-- formatter gives the eleven bytes that nft32_name_to_fatname of the file system stores, into any array.
pub to_83_name-name_to_fatname :
    (base ext fatname : List ℕ)
    → All IsPlain base
    → All IsPlain ext
    → 0 < length base
    → length base ≤ 8
    → length ext ≤ 3
    → to_83_name (short base ext) ≡ take 11 (name_to_fatname (short base ext) fatname)
unfolding to_83_name
to_83_name-name_to_fatname [] ext fatname plain ext_plain some_base fits ext_fits =
    absurd (omega arith)
to_83_name-name_to_fatname (c ∷ cs) ext fatname plain ext_plain some_base fits ext_fits =
    let base = c ∷ cs in
    let front = pad 8 (map to_upper base) in
    let back = pad 3 (map to_upper ext) in
    let rest = set (uppercase (drop 11 fatname)) 0 0 in
    let size : length (front ++ back) ≡ 11 = omega (
      arith,
      length-append front back,
      length-pad 8 (map to_upper base) (omega (arith, length-map base to_upper)),
      length-pad 3 (map to_upper ext) (omega (arith, length-map ext to_upper)),
    ) in
    ap (λ (p : List ℕ × List ℕ). fill_upper 8 p.0 ++ fill_upper 3 p.1)
      (base_and_ext-short c cs ext plain ext_plain fits ext_fits)
    ∙ ap₂ ◌++◌ (fill_upper-pad 8 base fits) (fill_upper-pad 3 ext ext_fits)
    ∙ sym (
        rw (stored base ext fatname plain ext_plain some_base fits ext_fits) (
          ap (take 11) (sym (append_assoc front back rest))
          ∙ ap (λ (k : ℕ). take k ((front ++ back) ++ rest)) (sym size)
          ∙ take-append (front ++ back) rest))
