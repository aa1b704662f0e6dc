-- ===== src/Names/Shape.antt =====
-- What every name becomes on the disk, whatever its bytes.
use ni_fat.Base.{
  ℕ, zero, suc, ◌-◌, ◌≤◌, ◌==◌, ◌≡◌, refl, ap, ◌∙◌, arith, if◌then◌else◌, List, [], ◌∷◌, ◌++◌,
  length, get_or, take, drop, replicate, length-append, length-replicate, length-take, pick, set,
  length-set, length-drop, ◌<◌,
}
use ni_fat.Strings.{uppercase, to_upper}
use ni_fat.Names.{dot, space, take_base, skip_dot, pad, eleven, name_to_fatname}

pub length-pad : (n : ℕ) (xs : List ℕ) → length xs ≤ n → length (pad n xs) ≡ n
unfolding pad
length-pad n xs h = omega (
  arith,
  length-append xs (replicate (n - length xs) space),
  length-replicate (n - length xs) space,
)

length-take_base : (n : ℕ) (name : List ℕ) → length (take_base n name) ≤ n
unfolding take_base
length-take_base zero name = omega arith
length-take_base (suc n) [] = omega arith
length-take_base (suc n) (c ∷ cs) =
    pick (λ (r : List ℕ). length r ≤ suc n) (c == dot) [] (c ∷ take_base n cs) (omega arith)
      (omega (arith, length-take_base n cs))

-- every name is stored in eleven bytes
pub length-eleven : (name : List ℕ) → length (eleven name) ≡ 11
unfolding eleven
length-eleven name =
    let base = take_base 8 name in
    let ext = take 3 (skip_dot (drop (length base) name)) in
    let room = length-pad 8 base (length-take_base 8 name) in
    length-pad 11 _ (
      pick (λ (r : List ℕ). length r ≤ 11) (get_or name 0 0 == dot)
        (if get_or name 1 0 == dot then dot ∷ dot ∷ [] else dot ∷ []) (pad 8 base ++ ext)
        (pick (λ (r : List ℕ). length r ≤ 11) (get_or name 1 0 == dot) (dot ∷ dot ∷ []) (dot ∷ [])
          (omega arith) (omega arith))
        (omega (
          arith,
          length-append (pad 8 base) ext,
          room,
          length-take 3 (skip_dot (drop (length base) name)),
        )))

pub length-uppercase : (xs : List ℕ) → length (uppercase xs) ≡ length xs
unfolding uppercase
length-uppercase [] = refl
length-uppercase (c ∷ cs) =
    pick (λ (r : List ℕ). length r ≡ suc (length cs)) (c == 0) (c ∷ cs) (to_upper c ∷ uppercase cs)
      refl (ap suc (length-uppercase cs))

get_or-set : (xs : List ℕ) (i v d : ℕ) → i < length xs → get_or (set xs i v) i d ≡ v
get_or-set [] i v d h = elim h [ ]
get_or-set (x ∷ xs) zero v d h = refl
get_or-set (x ∷ xs) (suc i) v d h = get_or-set xs i v d (omega arith)

-- An array of twelve bytes or more keeps its size, and gets its terminator behind the eleven bytes.
pub length-name_to_fatname :
    (name fatname : List ℕ)
    → 11 < length fatname
    → (length (name_to_fatname name fatname) ≡ length fatname)
      × (get_or (name_to_fatname name fatname) 11 1 ≡ 0)
unfolding name_to_fatname
length-name_to_fatname name fatname room =
    let whole = uppercase (eleven name ++ drop 11 fatname) in
    let size : length whole ≡ length fatname = omega (
      arith,
      length-uppercase (eleven name ++ drop 11 fatname),
      length-append (eleven name) (drop 11 fatname),
      length-eleven name,
      length-drop 11 fatname,
    ) in
    (length-set whole 11 0 ∙ size, get_or-set whole 11 0 1 (omega (arith, size)))
