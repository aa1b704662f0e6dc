-- ===== src/Vote.antt =====
-- The majority vote over the copies of a replicated value: the loops of `read_fat` (src/fat.c),
-- `_read_error` (src/errors.c) and `_read_journal` (src/journal.c) make these steps.
pub mod Majority
use ni_fat.Base.{ℕ, ◌+◌, ◌-◌, ◌==◌, ltb, if◌then◌else◌, Bool, not, ◌&&◌, List, [], ◌∷◌}

-- `freq` is `val_freq` between two rounds, where it is not negative. `mismatches` is `wrong + 1`.
pub record Vote : Type 0 where
  pub value : ℕ
  pub freq : ℕ
  pub mismatches : ℕ

-- before the first round, with the value that the variable is initialised with
unfoldable pub start : ℕ → Vote
start v = record { value = v; freq = 0; mismatches = 0 }

-- `val_freq < 0` after the update: the copy's value becomes the candidate
unfoldable pub replaces : Vote → ℕ → Bool
replaces v x = not (x == v.value) && v.freq == 0

unfoldable pub step : Vote → ℕ → Vote
step v x =
    if x == v.value
    then record v { freq = v.freq + 1 }
    else if replaces v x
    then record { value = x; freq = 0; mismatches = v.mismatches + 1 }
    else record v { freq = v.freq - 1; mismatches = v.mismatches + 1 }

-- `wrong > 0`
unfoldable pub needs_repair : Vote → Bool
needs_repair v = ltb 1 v.mismatches

unfoldable pub votes : Vote → List ℕ → Vote
votes v [] = v
votes v (x ∷ xs) = votes (step v x) xs
