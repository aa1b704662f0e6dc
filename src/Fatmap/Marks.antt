-- ===== src/Fatmap/Marks.antt =====
-- src/fatmap.c, `fatmap_set` and `fatmap_unset`: the bits of the bitmap after an update.
use Prim.Native.Nat.{min, max}
use ni_fat.Base.{
  ℕ, zero, suc, ◌-◌, ◌/◌, ◌%◌, ◌^◌, ◌==◌, ◌<◌, if◌then◌else◌, ◌≡◌, ◌≢◌, ap, sym, ◌∙◌, refl, arith,
}
use ni_fat.Base.{List, [], ◌∷◌, length, get_or, set, get_bit, Bool, true, false, ne→==, ==_iff}
use ni_fat.Base.Bits.{get_bit-bit_or, get_bit-bit_and}
use native.Mathlib.Decide.{ℕ_discrete}
use ni_fat.Base.Tables.{each_below, entry_of}
use ni_fat.Fatmap.{mark, clear_mark, set_mark}

pub get_or-set_self : (xs : List ℕ) (i v d : ℕ) → i < length xs → get_or (set xs i v) i d ≡ v
get_or-set_self [] i v d h = absurd (omega arith)
get_or-set_self (x ∷ xs) zero v d h = refl
get_or-set_self (x ∷ xs) (suc i) v d h = get_or-set_self xs i v d (omega arith)

get_or-set_ne : (xs : List ℕ) (i j v d : ℕ) → i ≢ j → get_or (set xs i v) j d ≡ get_or xs j d
get_or-set_ne [] i j v d h = refl
get_or-set_ne (x ∷ xs) zero zero v d h = absurd (h refl)
get_or-set_ne (x ∷ xs) zero (suc j) v d h = refl
get_or-set_ne (x ∷ xs) (suc i) zero v d h = refl
get_or-set_ne (x ∷ xs) (suc i) (suc j) v d h = get_or-set_ne xs i j v d (λ e. h (ap suc e))

-- the masks of the two updates, at every bit of a 32-bit word
set_table :
    each_below 32 (λ i. each_below 32 (λ j. get_bit (2 ^ i) j == (if j == i then 1 else 0))) ≡ true
unfolding each_below
set_table = refl

clear_table :
    each_below 32
      (λ i. each_below 32 (λ j. get_bit (0xffffffff - 2 ^ i) j == (if j == i then 0 else 1)))
    ≡ true
unfolding each_below
clear_table = refl

set_mask : (i j : ℕ) → i < 32 → j < 32 → get_bit (2 ^ i) j ≡ (if j == i then 1 else 0)
set_mask i j h k = (==_iff _ _).0 (entry_of 32 _ j k (entry_of 32 _ i h set_table))

clear_mask :
    (i j : ℕ) → i < 32 → j < 32 → get_bit (0xffffffff - 2 ^ i) j ≡ (if j == i then 0 else 1)
clear_mask i j h k = (==_iff _ _).0 (entry_of 32 _ j k (entry_of 32 _ i h clear_table))

get_bit-lt : (w j : ℕ) → get_bit w j < 2
get_bit-lt w j = omega arith

or_bit : (b c : ℕ) (t : Bool) → b < 2 → c ≡ (if t then 1 else 0) → max b c ≡ (if t then 1 else b)
or_bit b c true h e = omega arith
or_bit b c false h e = omega arith

and_bit : (b c : ℕ) (t : Bool) → b < 2 → c ≡ (if t then 0 else 1) → min b c ≡ (if t then 0 else b)
and_bit b c true h e = omega arith
and_bit b c false h e = omega arith

-- the index of a bit is its word and its place in the word
same_bit : (i j : ℕ) → i / 32 ≡ j / 32 → (j % 32 == i % 32) ≡ (j == i)
same_bit i j h = ground arith

-- an update of the word of bit `ca` that has the effect `g` on it
mark_word :
    (bitmap : List ℕ) (ca j w g : ℕ)
    → ca / 32 < length bitmap
    → ((k : ℕ)
        → k < 32
        → get_bit w k ≡ (if k == ca % 32 then g else get_bit (get_or bitmap (ca / 32) 0) k))
    → mark (set bitmap (ca / 32) w) j ≡ (if j == ca then g else mark bitmap j)
unfolding mark
mark_word bitmap ca j w g h f = elim (ℕ_discrete (ca / 32) (j / 32)) [
  | yes e ↦ rw (← e) (
      rw (get_or-set_self bitmap (ca / 32) w 0 h) (
        f (j % 32) (omega arith)
        ∙ ap (λ (t : Bool). if t then g else get_bit (get_or bitmap (ca / 32) 0) (j % 32))
            (same_bit ca j e)))
  | no e ↦
      let other : (j == ca) ≡ false = ne→== (λ q. e (ap (λ (k : ℕ). k / 32) (sym q))) in
      rw (other, get_or-set_ne bitmap (ca / 32) (j / 32) w 0 e)
]

-- `fatmap_unset` marks the cluster `ca` as occupied and leaves the bit of every other cluster,
-- where the bitmap has a bit for `ca`.
pub mark-set_mark :
    (bitmap : List ℕ) (ca j : ℕ)
    → ca / 32 < length bitmap
    → mark (set_mark ca bitmap) j ≡ (if j == ca then 1 else mark bitmap j)
unfolding set_mark
mark-set_mark bitmap ca j h =
    let w : ℕ = get_or bitmap (ca / 32) 0 in
    mark_word bitmap ca j _ 1 h (λ k q.
      get_bit-bit_or w (2 ^ (ca % 32)) k
      ∙ or_bit _ _ (k == ca % 32) (get_bit-lt w k) (set_mask (ca % 32) k (omega arith) q))

-- `fatmap_set` marks the cluster `ca` as free and leaves the bit of every other cluster, where the
-- bitmap has a bit for `ca`.
pub mark-clear_mark :
    (bitmap : List ℕ) (ca j : ℕ)
    → ca / 32 < length bitmap
    → mark (clear_mark ca bitmap) j ≡ (if j == ca then 0 else mark bitmap j)
unfolding clear_mark
mark-clear_mark bitmap ca j h =
    let w : ℕ = get_or bitmap (ca / 32) 0 in
    mark_word bitmap ca j _ 0 h (λ k q.
      get_bit-bit_and w (0xffffffff - 2 ^ (ca % 32)) k
      ∙ and_bit _ _ (k == ca % 32) (get_bit-lt w k) (clear_mask (ca % 32) k (omega arith) q))
