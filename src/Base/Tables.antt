-- ===== src/Base/Tables.antt =====
-- Statements on the numbers below a bound that evaluation settles.
use Prim.Native.Nat.{ℕ, zero, suc, ◌<◌}
use mathlib.Core.Path.{◌≡◌}
use mathlib.Core.Bool.{Bool, true, ◌&&◌}
use native.Mathlib.Omega.{arith}

unfoldable pub each_below : ℕ → (ℕ → Bool) → Bool
each_below zero test = true
each_below (suc n) test = each_below n test && test n

pub entry_of : (n : ℕ) (test : ℕ → Bool) (i : ℕ) → i < n → each_below n test ≡ true → test i ≡ true
unfolding each_below
entry_of zero test i bound table = elim bound [ ]
entry_of (suc n) test i bound table = ground (arith, entry_of n test i)
