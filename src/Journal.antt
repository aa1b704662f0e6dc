-- ===== src/Journal.antt =====
-- src/journal.c: operations on directory entries that are not finished yet, kept in `journals_count`
-- copies, and replayed when the file system starts.
pub mod Copies
pub mod Stored
pub mod Restore
pub mod Replay
use ni_fat.Base.{
  ℕ, zero, suc, ◌+◌, ◌-◌, ◌*◌, ◌/◌, ◌%◌, ◌==◌, ltb, if◌then◌else◌, Bool, true, false, not,
}
use ni_fat.Base.{List, replicate, Option, none, some, u8, u32}
use ni_fat.Threading.{require_write, release_write, quiet, thread_num}
use ni_fat.State.{FatData, Core, State, Driver}
use ni_fat.Hamming.Buffer.{packed, unpacked}
use ni_fat.Vote.{Vote, start, step, needs_repair}
use ni_fat.Disk.{readoff_sectors, writeoff_sectors}
use ni_fat.Errors.{register_error, adopt, no_code}
use ni_fat.Cluster.{writeoff_cluster}
use ni_fat.Checksum.{murmur3}
use ni_fat.Layout.{
  DirectoryEntry, SqueezedEntry, JournalEntry, directory_bytes, journal_bytes, journal_of,
  blank_journal,
}

abbrev pub no_op : ℕ
no_op = 0

abbrev pub add_op : ℕ
add_op = 1

abbrev pub edit_op : ℕ
edit_op = 2

abbrev pub del_op : ℕ
del_op = 3

abbrev pub journal_write_error : ℕ
journal_write_error = 40

abbrev pub journal_read_error : ℕ
journal_read_error = 41

-- GET_JOURNALSECTOR
unfoldable pub journal_sector : ℕ → ℕ → ℕ
journal_sector n ts = u32 ((n + 35) * 12983229) / 8 % u32 (ts + 0x100000000 - 2)

-- `cluster_size / (sizeof(journal_entry_t) * sizeof(encoded_t))`
unfoldable pub capacity : FatData → ℕ
capacity fi = fi.cluster_size / 68

-- The state of the file system with `_journal_index` and `_journal_lock`.
pub record Logged (S : Type 0) : Type 0 where
  pub state : State S
  pub index : ℕ
  pub lock : ℕ

unfoldable pub squeeze : DirectoryEntry → SqueezedEntry
squeeze e = record {
  file_name = e.file_name;
  attributes = e.attributes;
  rca = e.rca;
  dca = e.dca;
  file_size = e.file_size;
}

-- `_unsqueeze_entry`, into an entry whose `checksum` was `old`, which is hashed with the rest.
unfoldable pub unsqueeze : ℕ → SqueezedEntry → DirectoryEntry
unsqueeze old e =
    let filled : DirectoryEntry = record {
      file_name = e.file_name;
      name_hash = murmur3 e.file_name 0;
      attributes = e.attributes;
      rca = e.rca;
      dca = e.dca;
      file_size = e.file_size;
      checksum = old;
    } in
    record filled { checksum = murmur3 (directory_bytes filled) 0 }

-- taking and giving back `_journal_lock`
unfoldable pub take_journal_lock : {S : Type 0} → Logged S → Bool × Logged S
take_journal_lock l =
    let got = require_write quiet l.lock thread_num in (got.taken, record l { lock = got.word })

unfoldable pub drop_journal_lock : {S : Type 0} → Logged S → Logged S
drop_journal_lock l = record l { lock = (release_write 1 quiet l.lock thread_num).word }

module _ {S : Type 0} (d : Driver S) (fi : FatData) where
  -- `__write_journal__`. An entry is 68 bytes at its index, in a transfer of one sector.
  unfoldable pub write_journal_copy : ℕ → JournalEntry → ℕ → State S → State S
  write_journal_copy index j copy s =
      let (written, s') =
        writeoff_sectors d (journal_sector copy fi.total_sectors) (u32 (index * 68))
          (packed (journal_bytes j)) 68 1 s in
      if written then s' else (register_error d fi journal_write_error s').1

  -- the loop of `_write_journal`, which returns 1
  unfoldable pub write_journal_copies : ℕ → JournalEntry → ℕ → ℕ → State S → State S
  write_journal_copies index j zero i s = s
  write_journal_copies index j (suc n) i s =
      write_journal_copies index j n (i + 1) (write_journal_copy index j i s)

  unfoldable pub write_journal : ℕ → JournalEntry → State S → State S
  write_journal index j s = write_journal_copies index j fi.journals_count 0 s

  -- `__read_journal__` over `*entry`, which a failed transfer leaves as it was
  unfoldable pub read_journal_copy : ℕ → ℕ → JournalEntry → State S → JournalEntry × State S
  read_journal_copy index copy old s =
      let (r, s') =
        readoff_sectors d (journal_sector copy fi.total_sectors) (u32 (index * 68)) (replicate 68 0)
          68 1 s in
      if r.0
      then (journal_of (unpacked r.1), s')
      else (old, (register_error d fi journal_read_error s').1)

  -- the loop of `_read_journal`: the vote on the checksums, and `copy_pos`
  unfoldable pub read_journal_copies :
      ℕ → ℕ → ℕ → Vote → Option ℕ → State S → (Vote × Option ℕ) × State S
  read_journal_copies index zero i v copy s = ((v, copy), s)
  read_journal_copies index (suc n) i v copy s =
      let (curr, s') = read_journal_copy index i blank_journal s in
      read_journal_copies index n (i + 1) (step v curr.checksum)
        (adopt (some curr.checksum) i v copy) s'

  -- what `_read_journal` does after its loop, with what `*entry` held before
  unfoldable pub choose_copy :
      ℕ → JournalEntry → (Vote × Option ℕ) × State S → (Bool × JournalEntry) × State S
  choose_copy index old ((v, none), s) = ((false, old), s)
  choose_copy index old ((v, some copy), s) =
      let (entry, s') = read_journal_copy index copy old s in
      ((true, entry), if needs_repair v then write_journal index entry s' else s')

  unfoldable pub read_journal : ℕ → JournalEntry → State S → (Bool × JournalEntry) × State S
  read_journal index old s =
      choose_copy index old (read_journal_copies index fi.journals_count 0 (start no_code) none s)

  -- the `switch` of `restore_from_journal`; `residue` is what `restored.checksum` held
  unfoldable pub replay : ℕ → JournalEntry → State S → State S
  replay residue j s =
      let place = u32 (j.offset * 64) in
      let erased = (writeoff_cluster d fi j.ca place (replicate 64 0) 64 s).1 in
      let bytes = packed (directory_bytes (unsqueeze residue j.entry)) in
      let restored = (writeoff_cluster d fi j.ca place bytes 64 s).1 in
      if j.op == del_op
      then erased
      else if j.op == add_op
      then restored
      else if j.op == edit_op
      then restored
      else s

  -- a round of the loop of `restore_from_journal`; `old` is what the variable `entry` held in it
  unfoldable pub restore_entry : ℕ → JournalEntry → ℕ → State S → State S
  restore_entry residue old index s =
      let ((found, j), s') = read_journal index old s in
      let done = write_journal index (record j { op = no_op }) (replay residue j s') in
      if j.op == no_op then s' else done

  -- The loop, whose counter is the `unsigned char` `_journal_index`; `none` is no end in `fuel` tests.
  -- `residue` and `old` are what the variables of each round hold at its start.
  unfoldable pub restore_loop : (ℕ → ℕ) → (ℕ → JournalEntry) → ℕ → ℕ → State S → Option (State S)
  restore_loop residue old zero index s = none
  restore_loop residue old (suc fuel) index s = elim (ltb index (capacity fi)) [
    | true ↦
        restore_loop residue old fuel (u8 (index + 1))
          (restore_entry (residue index) (old index) index s)
    | false ↦ some s
  ]

  -- `restore_from_journal`, in at most `fuel` tests of the loop's condition
  unfoldable pub restore_from_journal :
      (ℕ → ℕ) → (ℕ → JournalEntry) → ℕ → Logged S → Option (Bool × Logged S)
  restore_from_journal residue old fuel l =
      let (held, l1) = take_journal_lock l in
      if fi.journals_count == 0
      then some (false, l)
      else if not held
      then some (false, l1)
      else elim (restore_loop residue old fuel 0 l1.state) [
        | none ↦ none
        | some s ↦ some (true, drop_journal_lock (record l1 { state = s; index = 0 }))
      ]

  -- The loop of `journal_add_operation`, with `delay` rounds left; `none` is its -1. In each round
  -- `curr` holds `old delay` before it is read.
  unfoldable pub find_place : ℕ → (ℕ → JournalEntry) → JournalEntry → Logged S → Option ℕ × Logged S
  find_place zero old j l = (none, drop_journal_lock l)
  find_place (suc delay) old j l =
      let place = l.index % capacity fi in
      let ((found, curr), s) = read_journal place (old delay) l.state in
      let l1 : Logged S = record l { state = s; index = u8 (l.index + 1) } in
      elim (curr.op == no_op) [
        | true ↦ (some place, drop_journal_lock (record l1 { state = write_journal place j s }))
        | false ↦ find_place delay old j l1
      ]

  -- `journal_add_operation`; a -1 stands as `none`.
  unfoldable pub add_operation :
      (ℕ → JournalEntry) → ℕ → ℕ → ℕ → DirectoryEntry → Logged S → Option ℕ × Logged S
  add_operation old op ca offset e l =
      let (held, l1) = take_journal_lock l in
      let j : JournalEntry = record {
        op = op;
        ca = ca;
        offset = u8 offset;
        entry = squeeze e;
        checksum = 0;
      } in
      if fi.journals_count == 0
      then (some 0, l)
      else if held
      then find_place 100 old j l1
      else (none, l1)

  -- `journal_solve_operation`; a negative index stands as `none`.
  unfoldable pub solve_operation : Option ℕ → Logged S → Bool × Logged S
  solve_operation none l = (false, l)
  solve_operation (some index) l =
      let (held, l1) = take_journal_lock l in
      let solved : Logged S = record l1 { state = write_journal index blank_journal l1.state } in
      if fi.journals_count == 0
      then (false, l)
      else if held
      then (true, drop_journal_lock solved)
      else (false, l1)
