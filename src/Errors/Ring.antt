-- ===== src/Errors/Ring.antt =====
-- src/errors.c: the indices of the ring, through every function that changes them.
use ni_fat.Base.{ℕ, zero, suc, ◌+◌, ◌*◌, ◌<◌, ◌≤◌, ◌≡◌, refl, ◌∙◌, arith, Bool, true, false, not}
use ni_fat.Base.{List, Option, none, some, ◌==◌}
use ni_fat.Base.{pick}
use ni_fat.State.{FatData, Errors, State, Driver}
use ni_fat.Vote.{Vote, needs_repair, start}
use ni_fat.Disk.{readoff_sectors, writeoff_sectors}
use ni_fat.Errors.{
  next_ring_index, write_error_copy, write_error_copies, write_error, read_error_copy,
  read_error_copies, settle, read_error, dump_info, advance, consume, register_error, hand_over,
  last_error, no_code, take_errors_lock, drop_errors_lock, set_errors,
}

-- an index of an entry behind the info entry, with its `cluster_size / 4` entries
abbrev pub IsIndex : FatData → ℕ → Type 0
IsIndex fi i = (1 ≤ i) × (i * 4 < fi.cluster_size)

pub record IsRing (fi : FatData) (e : Errors) : Type 0 where
  pub first : IsIndex fi e.first_error
  pub current : IsIndex fi e.current
  pub last : IsIndex fi e.last_error

-- the ring has an entry, and its indices fit `unsigned short`
pub record IsSized (fi : FatData) : Type 0 where
  pub room : 4 < fi.cluster_size
  pub short : fi.cluster_size ≤ 0x40000

next_ring_index-IsIndex :
    (fi : FatData) (i : ℕ) → 4 < fi.cluster_size → IsIndex fi (next_ring_index i fi)
unfolding next_ring_index
next_ring_index-IsIndex fi i h = ground arith

advance-IsRing : (fi : FatData) (e : Errors) → IsSized fi → IsRing fi e → IsRing fi (advance fi e)
unfolding advance
advance-IsRing fi e z r =
    ground (arith, next_ring_index-IsIndex fi e.current, next_ring_index-IsIndex fi e.first_error)

consume-IsRing : (fi : FatData) (e : Errors) → IsSized fi → IsRing fi e → IsRing fi (consume fi e)
unfolding consume
consume-IsRing fi e z r = ground (arith, next_ring_index-IsIndex fi e.first_error)

module _ {S : Type 0} (d : Driver S) (fi : FatData) where
  -- transfers leave the ring alone
  errors-writeoff :
      (sa off : ℕ) (bytes : List ℕ) (size sc : ℕ) (s : State S)
      → (writeoff_sectors d sa off bytes size sc s).1.core.errors ≡ s.core.errors
  unfolding writeoff_sectors
  errors-writeoff sa off bytes size sc s = ground arith

  errors-readoff :
      (sa off : ℕ) (buffer : List ℕ) (size sc : ℕ) (s : State S)
      → (readoff_sectors d sa off buffer size sc s).1.core.errors ≡ s.core.errors
  unfolding readoff_sectors
  errors-readoff sa off buffer size sc s = ground arith

  errors-write_error_copies :
      (index c n i : ℕ) (status : Bool) (s : State S)
      → (write_error_copies d fi index c n i status s).1.core.errors ≡ s.core.errors
  unfolding write_error_copies write_error_copy
  errors-write_error_copies index c zero i status s = refl
  errors-write_error_copies index c (suc n) i status s =
      errors-write_error_copies index c n (i + 1) _ _ ∙ errors-writeoff _ _ _ _ _ s

  errors-write_error :
      (index c : ℕ) (s : State S) → (write_error d fi index c s).1.core.errors ≡ s.core.errors
  unfolding write_error
  errors-write_error index c s = errors-write_error_copies index c fi.errors_count 0 true s

  errors-read_error_copies :
      (index n i : ℕ) (v : Vote) (copy : Option ℕ) (s : State S)
      → (read_error_copies d fi index n i v copy s).1.core.errors ≡ s.core.errors
  unfolding read_error_copies read_error_copy
  errors-read_error_copies index zero i v copy s = refl
  errors-read_error_copies index (suc n) i v copy s =
      errors-read_error_copies index n (i + 1) _ _ _ ∙ errors-readoff _ _ _ _ _ s

  errors-settle :
      (index : ℕ) (v : Vote) (copy : Option ℕ) (s : State S)
      → (settle d fi index ((v, copy), s)).1.core.errors ≡ s.core.errors
  unfolding settle
  errors-settle index v none s = refl
  errors-settle index v (some i) s =
      pick (λ (t : State S). t.core.errors ≡ s.core.errors) (needs_repair v) _ _
        (errors-write_error index v.value s) refl

  errors-read_error :
      (index : ℕ) (s : State S) → (read_error d fi index s).1.core.errors ≡ s.core.errors
  unfolding read_error
  errors-read_error index s =
      errors-settle index _ _ _
      ∙ errors-read_error_copies index fi.errors_count 0 (start no_code) none s

  errors-dump_info : (s : State S) → (dump_info d fi s).1.core.errors ≡ s.core.errors
  unfolding dump_info
  errors-dump_info s = errors-write_error 0 _ s

  abbrev RingAfter : {A : Type 0} → A × State S → Type 0
  RingAfter r = IsRing fi r.1.core.errors

  register_error-IsRing :
      (code : ℕ) (s : State S)
      → IsSized fi
      → IsRing fi s.core.errors
      → IsRing fi (register_error d fi code s).1.core.errors
  unfolding register_error take_errors_lock drop_errors_lock set_errors
  register_error-IsRing code s z r =
      let s1 : State S = (take_errors_lock s).1 in
      let w : Bool × State S = write_error d fi s.core.errors.current code s1 in
      let stored : IsRing fi w.1.core.errors =
        rw (errors-write_error s.core.errors.current code s1) r in
      let dumped : Bool × State S = dump_info d fi (set_errors (advance fi w.1.core.errors) w.1) in
      let moved : IsRing fi dumped.1.core.errors =
        rw errors-dump_info (advance-IsRing fi w.1.core.errors z stored) in
      pick RingAfter (take_errors_lock s).0 _ _
        (pick RingAfter w.0 (dumped.0, drop_errors_lock dumped.1) (false, drop_errors_lock w.1)
          moved stored)
        r

  hand_over-IsRing :
      (code : Option ℕ) (s : State S)
      → IsSized fi
      → IsRing fi s.core.errors
      → IsRing fi (hand_over d fi (code, s)).1.core.errors
  unfolding hand_over drop_errors_lock set_errors
  hand_over-IsRing none s z r = r
  hand_over-IsRing (some code) s z r = rw errors-dump_info (consume-IsRing fi s.core.errors z r)

  last_error-IsRing :
      (s : State S)
      → IsSized fi
      → IsRing fi s.core.errors
      → IsRing fi (last_error d fi s).1.core.errors
  unfolding last_error take_errors_lock drop_errors_lock
  last_error-IsRing s z r =
      let s1 : State S = (take_errors_lock s).1 in
      let got : Option ℕ × State S = read_error d fi s.core.errors.first_error s1 in
      let read : IsRing fi got.1.core.errors =
        rw (errors-read_error s.core.errors.first_error s1) r in
      pick RingAfter (not (take_errors_lock s).0) _ _ r (
        pick RingAfter (s.core.errors.first_error == s.core.errors.last_error) _ _ r
          (hand_over-IsRing got.0 got.1 z read))

  -- Whatever the device does, `errors_register_error` and `errors_last_error` keep the three indices
  -- of the ring on entries behind the info entry and below `cluster_size / 4`, for a cluster of more
  -- than 4 and at most 2^18 bytes.
  pub IsRing-indices :
      (code : ℕ) (s : State S)
      → IsSized fi
      → IsRing fi s.core.errors
      → IsRing fi (register_error d fi code s).1.core.errors
        × IsRing fi (last_error d fi s).1.core.errors
  IsRing-indices code s z r = (register_error-IsRing code s z r, last_error-IsRing s z r)
