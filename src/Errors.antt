-- ===== src/Errors.antt =====
-- src/errors.c: the ring of error codes, kept in one sector for each of `errors_count` copies.
pub mod Ring
pub mod Copies
pub mod Alone
pub mod Stored
pub mod Lost
use ni_fat.Base.{ℕ, zero, suc, ◌+◌, ◌-◌, ◌*◌, ◌/◌, ◌%◌, ◌==◌, leb, if◌then◌else◌, Bool, true, false}
use ni_fat.Base.{not, ◌&&◌, List, replicate, Option, none, some, u16, u32}
use ni_fat.Threading.{require_write, release_write, quiet, thread_num}
use ni_fat.State.{FatData, Errors, Guard, Core, State, Driver}
use ni_fat.Hamming.Buffer.{le32, from_le32, packed, unpacked}
use ni_fat.Vote.{Vote, start, step, replaces, needs_repair}
use ni_fat.Disk.{readoff_sectors, writeoff_sectors}

-- GET_ERRORSSECTOR
unfoldable pub errors_sector : ℕ → ℕ → ℕ
errors_sector n ts = u32 ((n + 23) * 10986542) / 512 % u32 (ts + 0x100000000 - 2)

-- PACK_INFO_ENTRY, GET_FIRST_ERROR and GET_LAST_ERROR; the `|` is of disjoint halves.
unfoldable pub pack_info : ℕ → ℕ → ℕ
pack_info first last = u32 (first * 0x10000) + last % 0x10000

unfoldable pub first_of_info : ℕ → ℕ
first_of_info e = u16 (e / 0x10000)

unfoldable pub last_of_info : ℕ → ℕ
last_of_info e = e % 0x10000

-- `_next_ring_index`
unfoldable pub next_ring_index : ℕ → FatData → ℕ
next_ring_index idx fi = if leb fi.cluster_size ((idx + 1) * 4) then 1 else idx + 1

-- the ring after a code was stored at `current`
unfoldable pub advance : FatData → Errors → Errors
advance fi e =
    let next = next_ring_index e.current fi in
    let first =
      if next == e.first_error then u16 (next_ring_index e.first_error fi) else e.first_error in
    record { first_error = first; current = u16 next; last_error = u16 next }

-- the ring after its oldest code was read
unfoldable pub consume : FatData → Errors → Errors
consume fi e = record e { first_error = u16 (next_ring_index e.first_error fi) }

-- the code -1, which no copy counts for by itself
abbrev pub no_code : ℕ
no_code = 0xffffffff

-- one copy's part in the vote of `_read_error`; a copy that cannot be read has none
unfoldable pub count_code : Option ℕ → Vote → Vote
count_code none v = v
count_code (some x) v = step v x

-- `copy_pos` after copy `i`
unfoldable pub adopt : Option ℕ → ℕ → Vote → Option ℕ → Option ℕ
adopt none i v copy = copy
adopt (some x) i v copy = if replaces v x then some i else copy

abbrev or_one : ℕ → ℕ
or_one n = if n == 0 then 1 else n

-- taking and giving back `_errors_lock`
unfoldable pub take_errors_lock : {S : Type 0} → State S → Bool × State S
take_errors_lock s =
    let g = s.guard in
    let got = require_write quiet g.errors_lock thread_num in
    (got.taken, record s { guard = record g { errors_lock = got.word } })

unfoldable pub drop_errors_lock : {S : Type 0} → State S → State S
drop_errors_lock s =
    let g = s.guard in
    let freed = (release_write 1 quiet g.errors_lock thread_num).word in
    record s { guard = record g { errors_lock = freed } }

unfoldable pub set_errors : {S : Type 0} → Errors → State S → State S
set_errors e s = let c = s.core in record s { core = record c { errors = e } }

module _ {S : Type 0} (d : Driver S) (fi : FatData) where
  -- `__write_error__`. An entry is 8 bytes at its index, in a transfer of one sector.
  unfoldable pub write_error_copy : ℕ → ℕ → ℕ → State S → Bool × State S
  write_error_copy index c copy s =
      writeoff_sectors d (errors_sector copy fi.total_sectors) (u32 (index * 8)) (packed (le32 c)) 8
        1 s

  -- the loop of `_write_error`, with the copies left and the next copy's number
  unfoldable pub write_error_copies : ℕ → ℕ → ℕ → ℕ → Bool → State S → Bool × State S
  write_error_copies index c zero i status s = (status, s)
  write_error_copies index c (suc n) i status s =
      let (written, s') = write_error_copy index c i s in
      write_error_copies index c n (i + 1) (written && status) s'

  unfoldable pub write_error : ℕ → ℕ → State S → Bool × State S
  write_error index c s = write_error_copies index c fi.errors_count 0 true s

  -- `__read_error__`: `none` is its 0
  unfoldable pub read_error_copy : ℕ → ℕ → State S → Option ℕ × State S
  read_error_copy index copy s =
      let (r, s') =
        readoff_sectors d (errors_sector copy fi.total_sectors) (u32 (index * 8)) (replicate 8 0) 8
          1 s in
      (if r.0 then some (from_le32 (unpacked r.1)) else none, s')

  -- the loop of `_read_error`: the vote, and `copy_pos`
  unfoldable pub read_error_copies :
      ℕ → ℕ → ℕ → Vote → Option ℕ → State S → (Vote × Option ℕ) × State S
  read_error_copies index zero i v copy s = ((v, copy), s)
  read_error_copies index (suc n) i v copy s =
      let (got, s') = read_error_copy index i s in
      read_error_copies index n (i + 1) (count_code got v) (adopt got i v copy) s'

  -- what `_read_error` does with the outcome of its loop; `none` is its 0
  unfoldable pub settle : ℕ → (Vote × Option ℕ) × State S → Option ℕ × State S
  settle index ((v, none), s) = (none, s)
  settle index ((v, some copy), s) =
      (some v.value, if needs_repair v then (write_error index v.value s).1 else s)

  unfoldable pub read_error : ℕ → State S → Option ℕ × State S
  read_error index s =
      settle index (read_error_copies index fi.errors_count 0 (start no_code) none s)

  unfoldable pub dump_info : State S → Bool × State S
  dump_info s = write_error 0 (pack_info s.core.errors.first_error s.core.errors.last_error) s

  unfoldable pub load_info : State S → Bool × State S
  load_info s =
      let (body, s') = read_error 0 s in
      elim body [
        | none ↦ (false, s')
        | some e ↦
            let first = or_one (first_of_info e) in
            let last = or_one (last_of_info e) in
            (
              true,
              set_errors (record { first_error = first; current = first; last_error = last }) s',
            )
      ]

  -- `errors_setup`
  unfoldable pub setup : State S → Bool × State S
  setup s =
      let (held, s') = take_errors_lock s in
      let (loaded, s'') = load_info s' in
      if held then (loaded, drop_errors_lock s'') else (false, s')

  -- `errors_register_error`
  unfoldable pub register_error : ℕ → State S → Bool × State S
  register_error code s =
      let (held, s1) = take_errors_lock s in
      let (written, s2) = write_error s1.core.errors.current code s1 in
      let (dumped, s3) = dump_info (set_errors (advance fi s2.core.errors) s2) in
      if held
      then if written then (dumped, drop_errors_lock s3) else (false, drop_errors_lock s2)
      else (false, s1)

  -- what `errors_last_error` does with the outcome of `_read_error`; `none` is its -1
  unfoldable pub hand_over : Option ℕ × State S → Option ℕ × State S
  hand_over (none, s) = (none, drop_errors_lock s)
  hand_over (some code, s) =
      (some code, drop_errors_lock (dump_info (set_errors (consume fi s.core.errors) s)).1)

  unfoldable pub last_error : State S → Option ℕ × State S
  last_error s =
      let (held, s1) = take_errors_lock s in
      let e = s1.core.errors in
      let read = hand_over (read_error e.first_error s1) in
      if not held
      then (none, s1)
      else if e.first_error == e.last_error
      then (none, drop_errors_lock s1)
      else read
