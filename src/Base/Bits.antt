-- ===== src/Base/Bits.antt =====
-- Single bits of `|` and `&`, at every word. The native operations stand for a recursion on binary
-- digits with fuel; each of them takes the bits one by one.
use Prim.Native.Nat.{
  min, max, differ, digits, bitwise, bit_and-bitwise, bit_or-bitwise, bit_xor-bitwise,
}
use Prim.Native.Nat.{ℕ, zero, suc, ◌+◌, ◌*◌, ◌/◌, ◌%◌, ◌^◌, ◌≤◌, bit_and, bit_or, bit_xor, ◌<◌}
use mathlib.Core.Path.{◌≡◌, refl, sym, ap, ap₂, ◌∙◌}
use native.Mathlib.Omega.{arith}
use native.Mathlib.Nat.{div-one, div-div-eq-div-mul, pow-succ'}
use ni_fat.Base.Words.{get_bit}

module _ (at_zero : ℕ → ℕ) (bit : ℕ → ℕ → ℕ) where
  -- any fuel from the number on gives the same digits
  enough :
      (x y fuel more : ℕ)
      → x ≤ fuel
      → x ≤ more
      → digits at_zero bit fuel x y ≡ digits at_zero bit more x y
  enough zero y zero zero p q = refl
  enough zero y zero (suc more) p q = refl
  enough zero y (suc fuel) zero p q = refl
  enough zero y (suc fuel) (suc more) p q = refl
  enough (suc x) y zero more p q = elim p [ ]
  enough (suc x) y (suc fuel) zero p q = elim q [ ]
  enough (suc x) y (suc fuel) (suc more) p q =
      let half = enough (suc x / 2) (y / 2) fuel more (omega arith) (omega arith) in
      ap (λ (r : ℕ). r * 2 + bit (suc x % 2) (y % 2)) half

  lowest :
      (x y : ℕ)
      → bitwise at_zero bit (suc x) y
        ≡ bitwise at_zero bit (suc x / 2) (y / 2) * 2 + bit (suc x % 2) (y % 2)
  lowest x y =
      let half = enough (suc x / 2) (y / 2) x (suc x / 2) (omega arith) (omega arith) in
      ap (λ (r : ℕ). r * 2 + bit (suc x % 2) (y % 2)) half

bit_or-digit : (x y : ℕ) → bit_or x y ≡ bit_or (x / 2) (y / 2) * 2 + max (x % 2) (y % 2)
bit_or-digit zero y = simp bit_or-bitwise (omega arith)
bit_or-digit (suc x) y = simp bit_or-bitwise (lowest (λ r. r) max x y)

bit_and-digit : (x y : ℕ) → bit_and x y ≡ bit_and (x / 2) (y / 2) * 2 + min (x % 2) (y % 2)
bit_and-digit zero y = simp bit_and-bitwise (omega arith)
bit_and-digit (suc x) y = simp bit_and-bitwise (lowest (λ r. zero) min x y)

-- bit `j + 1` of a word is bit `j` of its half
get_bit-suc : (x j : ℕ) → get_bit x (suc j) ≡ get_bit (x / 2) j
get_bit-suc x j =
    ap (λ (m : ℕ). m % 2)
      (ap (λ (m : ℕ). x / m) (pow-succ' 2 j) ∙ sym (div-div-eq-div-mul x 2 (2 ^ j)))

get_bit-zero : (x : ℕ) → get_bit x 0 ≡ x % 2
get_bit-zero x = ap (λ (m : ℕ). m % 2) (div-one x)

pub get_bit-bit_or : (x y j : ℕ) → get_bit (bit_or x y) j ≡ max (get_bit x j) (get_bit y j)
get_bit-bit_or x y zero =
    omega (arith, bit_or-digit x y, get_bit-zero x, get_bit-zero y, get_bit-zero (bit_or x y))
get_bit-bit_or x y (suc j) =
    let half : bit_or x y / 2 ≡ bit_or (x / 2) (y / 2) = omega (arith, bit_or-digit x y) in
    get_bit-suc (bit_or x y) j
    ∙ ap (λ (m : ℕ). get_bit m j) half
    ∙ get_bit-bit_or (x / 2) (y / 2) j
    ∙ ap₂ max (sym (get_bit-suc x j)) (sym (get_bit-suc y j))

pub get_bit-bit_and : (x y j : ℕ) → get_bit (bit_and x y) j ≡ min (get_bit x j) (get_bit y j)
get_bit-bit_and x y zero =
    omega (arith, bit_and-digit x y, get_bit-zero x, get_bit-zero y, get_bit-zero (bit_and x y))
get_bit-bit_and x y (suc j) =
    let half : bit_and x y / 2 ≡ bit_and (x / 2) (y / 2) = omega (arith, bit_and-digit x y) in
    get_bit-suc (bit_and x y) j
    ∙ ap (λ (m : ℕ). get_bit m j) half
    ∙ get_bit-bit_and (x / 2) (y / 2) j
    ∙ ap₂ min (sym (get_bit-suc x j)) (sym (get_bit-suc y j))

differ-le : (a b : ℕ) → a < 2 → b < 2 → differ a b ≤ 1
differ-le zero b h g = omega arith
differ-le (suc zero) zero h g = omega arith
differ-le (suc zero) (suc b) h g = omega arith
differ-le (suc (suc a)) b h g = absurd (omega arith)

bit_xor-digit : (x y : ℕ) → bit_xor x y ≡ bit_xor (x / 2) (y / 2) * 2 + differ (x % 2) (y % 2)
bit_xor-digit zero y = simp bit_xor-bitwise (omega arith)
bit_xor-digit (suc x) y = simp bit_xor-bitwise (lowest (λ r. r) differ x y)

-- `^` of two words of `k` bits has `k` bits
pub bit_xor-lt : (k x y : ℕ) → x < 2 ^ k → y < 2 ^ k → bit_xor x y < 2 ^ k
bit_xor-lt zero x y h g =
    let p : x ≡ 0 = omega arith in let q : y ≡ 0 = omega arith in rw (p, q) (omega arith)
bit_xor-lt (suc k) x y h g = omega (
  arith,
  pow-succ' 2 k,
  bit_xor-digit x y,
  bit_xor-lt k (x / 2) (y / 2) (omega (arith, pow-succ' 2 k)) (omega (arith, pow-succ' 2 k)),
  differ-le (x % 2) (y % 2) (omega arith) (omega arith),
)
