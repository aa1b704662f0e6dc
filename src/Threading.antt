-- ===== src/Threading.antt =====
-- std/threading.c and include/std/threading.h: a lock is one 32-bit word, with the readers in its
-- low byte, the write flag in bit 8 and the owner in the high half. Each function loads the word,
-- computes the word to store, and tries a compare-and-swap, again and again.
pub mod Exclusion
pub mod Loop
use ni_fat.Base.{ℕ, zero, suc, ◌+◌, ◌-◌, ◌*◌, ◌/◌, ◌%◌, ◌==◌, leb, if◌then◌else◌}
use ni_fat.Base.{Bool, true, false, not, ◌&&◌, get_bit}

abbrev pub no_owner : ℕ
no_owner = 0xff

abbrev pub max_readers : ℕ
max_readers = 255

-- REQUIRE_TIME, the attempts of the two functions that take a lock
abbrev pub require_time : ℕ
require_time = 99999

-- LOCK_PACK. The three fields are disjoint, so that `|` is a sum.
abbrev pub lock_pack : ℕ → Bool → ℕ → ℕ
lock_pack readers write owner =
    readers % 0x100 + (if write then 0x100 else 0) + owner % 0x10000 * 0x10000

abbrev pub null_lock : ℕ
null_lock = lock_pack 0 false no_owner

-- LOCK_IS_WRITE, LOCK_GET_READERS and LOCK_GET_OWNER
abbrev pub lock_is_write : ℕ → Bool
lock_is_write lock = get_bit lock 8 == 1

abbrev pub lock_readers : ℕ → ℕ
lock_readers lock = lock % 0x100

abbrev pub lock_owner : ℕ → ℕ
lock_owner lock = lock / 0x10000 % 0x10000

-- What one round of a loop does with the word that it loaded.
pub data Attempt : Type 0 where
  wait : Attempt
  give_up : Attempt
  swap : ℕ → Attempt

unfoldable pub try_read : ℕ → Attempt
try_read old =
    if lock_is_write old
    then wait
    else if leb max_readers (lock_readers old)
    then give_up
    else swap (lock_pack (lock_readers old + 1) false no_owner)

unfoldable pub try_release_read : ℕ → Attempt
try_release_read old =
    if lock_is_write old
    then give_up
    else if lock_readers old == 0
    then give_up
    else swap (
        if lock_readers old == 1
        then null_lock
        else lock_pack (lock_readers old - 1) false no_owner)

unfoldable pub try_write : ℕ → ℕ → Attempt
try_write owner old =
    if not (lock_is_write old) && lock_readers old == 0 then swap (lock_pack 0 true owner) else wait

unfoldable pub try_release_write : ℕ → ℕ → Attempt
try_release_write owner old =
    if not (lock_is_write old)
    then give_up
    else if lock_owner old == owner
    then swap null_lock
    else give_up

pub record Outcome : Type 0 where
  pub taken : Bool
  pub word : ℕ

-- At most `fuel` rounds. `others t` is what the other threads do to the word between the load and
-- the compare-and-swap of round `t`; the swap fails if they changed it.
unfoldable pub attempts : (ℕ → Attempt) → (ℕ → ℕ → ℕ) → ℕ → ℕ → ℕ → Outcome
attempts try others zero t word = record { taken = false; word = word }
attempts try others (suc fuel) t word =
    let now = others t word in
    let again = attempts try others fuel (t + 1) now in
    elim (try word) [
      | wait ↦ again
      | give_up ↦ record { taken = false; word = now }
      | swap new ↦ elim (now == word) [ true ↦ record { taken = true; word = new } | false ↦ again ]
    ]

unfoldable pub require_read : (ℕ → ℕ → ℕ) → ℕ → Outcome
require_read others lock = attempts try_read others require_time 0 lock

unfoldable pub require_write : (ℕ → ℕ → ℕ) → ℕ → ℕ → Outcome
require_write others lock owner = attempts (try_write owner) others require_time 0 lock

-- The release loops have no bound of their own: `fuel` is the rounds that are looked at.
unfoldable pub release_read : ℕ → (ℕ → ℕ → ℕ) → ℕ → Outcome
release_read fuel others lock = attempts try_release_read others fuel 0 lock

unfoldable pub release_write : ℕ → (ℕ → ℕ → ℕ) → ℕ → ℕ → Outcome
release_write fuel others lock owner = attempts (try_release_write owner) others fuel 0 lock

-- no other thread writes the word
abbrev pub quiet : ℕ → ℕ → ℕ
quiet t word = word

-- `get_thread_num()`, by default
abbrev pub thread_num : ℕ
thread_num = 0
