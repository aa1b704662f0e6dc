-- ===== src/Threading/Loop.antt =====
-- std/threading.c: the loops around the compare-and-swap.
use mathlib.Core.Bool.{true≢false}
use ni_fat.Base.{ℕ, zero, suc, ◌+◌, ◌<◌, ◌==◌, ==_iff, Bool-cases, ◌≡◌, refl, sym, arith}
use ni_fat.Base.{Bool, true, false, not, ◌&&◌, if◌then◌else◌, inl, inr}
use ni_fat.Threading.{
  Attempt, wait, give_up, swap, attempts, try_write, try_release_write, require_write,
  release_write, lock_pack, lock_is_write, lock_readers, null_lock, quiet, require_time,
}

-- A loop that reports success stored the word that its test computes from some word for it.
pub attempts-taken :
    (try : ℕ → Attempt) (others : ℕ → ℕ → ℕ) (fuel t word : ℕ)
    → (attempts try others fuel t word).taken ≡ true
    → (old : ℕ) × (try old ≡ swap (attempts try others fuel t word).word)
unfolding attempts
attempts-taken try others zero t word h = absurd (true≢false (sym h))
attempts-taken try others (suc fuel) t word h =
    go (try word) refl (attempts-taken try others fuel (t + 1) (others t word))
  where
    go :
        (a : Attempt)
        → try word ≡ a
        → ((attempts try others fuel (t + 1) (others t word)).taken ≡ true
            → (old : ℕ) × (try old ≡ swap (attempts try others fuel (t + 1) (others t word)).word))
        → (old : ℕ) × (try old ≡ swap (attempts try others (suc fuel) t word).word)
    go wait e rec = rw (e, attempts) (rec (rw (e, attempts) at h))
    go give_up e rec = ground arith
    go (swap new) e rec = elim (Bool-cases (others t word == word)) [
      | inl same ↦ (word, ground arith)
      | inr other ↦ rw (e, attempts) (rw other (rec (rw other at (rw (e, attempts) at h))))
    ]

abbrev pub is_free : ℕ → Bool
is_free word = not (lock_is_write word) && lock_readers word == 0

attempts-swap :
    (try : ℕ → Attempt) (fuel t word : ℕ) {new : ℕ}
    → 0 < fuel
    → try word ≡ swap new
    → attempts try quiet fuel t word ≡ record { taken = true; word = new }
unfolding attempts
attempts-swap try zero t word h e = elim h [ ]
attempts-swap try (suc fuel) t word h e = rw (e, attempts) (rw ((==_iff word word).1 refl))

attempts-wait :
    (try : ℕ → Attempt) (fuel t word : ℕ)
    → try word ≡ wait
    → attempts try quiet fuel t word ≡ record { taken = false; word = word }
unfolding attempts
attempts-wait try zero t word e = refl
attempts-wait try (suc fuel) t word e = rw (e, attempts) (attempts-wait try fuel (t + 1) word e)

-- With no other thread at work, a request for the write lock is granted exactly if no writer and
-- no reader holds the lock; it is refused, after all its rounds, with the word as it was.
pub require_write-quiet :
    (lock owner : ℕ)
    → require_write quiet lock owner ≡ (
        if is_free lock
        then record { taken = true; word = lock_pack 0 true owner }
        else record { taken = false; word = lock })
unfolding require_write
require_write-quiet lock owner = elim (Bool-cases (is_free lock)) [
  | inl free ↦
      rw free (attempts-swap _ require_time 0 lock (omega arith) (unfold try_write in rw free))
  | inr held ↦ rw held (attempts-wait _ require_time 0 lock (unfold try_write in rw held))
]

-- A lock taken for writing by one thread, and released by it, is unlocked again.
pub release-require_write :
    (fuel lock owner : ℕ)
    → 0 < fuel
    → owner < 0x10000
    → (require_write quiet lock owner).taken ≡ true
    → release_write fuel quiet (require_write quiet lock owner).word owner
      ≡ record { taken = true; word = null_lock }
unfolding release_write
release-require_write fuel lock owner f o h = elim (Bool-cases (is_free lock)) [
  | inl free ↦
      rw (require_write-quiet lock owner, free)
        (attempts-swap _ fuel 0 _ f (unfold try_release_write in ground arith))
  | inr held ↦ absurd (true≢false (sym (rw (require_write-quiet lock owner, held) at h)))
]
