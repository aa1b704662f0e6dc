-- ===== src/Entry.antt =====
-- src/entry.c: the entries of directories. A cluster of a directory holds its bytes coded, which are
-- read, decoded, handed to a function an entry at a time, and written back. What the variables for a
-- cluster held before is an argument; the walk along the chain has its rounds as fuel.
pub mod Operations
pub mod Growth
pub mod Removal
pub mod Cache
pub mod Slots
use ni_fat.Base.{
  ℕ, zero, suc, ◌+◌, ◌*◌, ◌/◌, ◌==◌, if◌then◌else◌, Bool, true, false, not, ◌&&◌, ◌||◌, List, [],
  ◌∷◌, ◌++◌, Option, none, some, get_or, take, drop, bit_and, set,
}
use ni_fat.State.{FatData, State, Driver}
use ni_fat.Hamming.Buffer.{packed, unpacked}
use ni_fat.Checksum.{murmur3}
use ni_fat.Strings.{ℤ, pos, memcpy, strncmp}
use ni_fat.Errors.{register_error}
use ni_fat.Fat.{cluster_bad, cluster_end, read_fat}
use ni_fat.Cluster.{read_cluster, write_cluster}
use ni_fat.Layout.{DirectoryEntry, directory_bytes, directory_of}
use ni_fat.Journal.{Logged, add_op, edit_op, add_operation, solve_operation}

abbrev pub entry_free : ℕ
entry_free = 0xe5

abbrev pub entry_end : ℕ
entry_end = 0

abbrev pub file_directory : ℕ
file_directory = 0x10

abbrev pub file_archive : ℕ
file_archive = 0x20

abbrev pub read_cluster_error : ℕ
read_cluster_error = 19

abbrev pub error_correction_error : ℕ
error_correction_error = 34

abbrev pub bad_cluster_error : ℕ
bad_cluster_error = 48

-- `create_entry`, in the build without times, over what the entry held
unfoldable pub create_entry : List ℕ → Bool → ℕ → ℕ → DirectoryEntry → DirectoryEntry
create_entry fullname is_dir first_cluster file_size e =
    let name = memcpy e.file_name fullname 11 in
    record {
      file_name = name;
      name_hash = murmur3 name 0;
      attributes = if is_dir then file_directory else file_archive;
      rca = cluster_bad;
      dca = first_cluster;
      file_size = if is_dir then 1 else file_size;
      checksum = 0;
    }

-- the checksum of an entry, over its bytes as they are
unfoldable pub entry_sum : DirectoryEntry → ℕ
entry_sum e = murmur3 (directory_bytes e) 0

-- `_validate_entry`, which leaves the checksum of an entry that fails at 0
unfoldable pub validate_entry : DirectoryEntry → Bool × DirectoryEntry
validate_entry e =
    let bare : DirectoryEntry = record e { checksum = 0 } in
    if entry_sum bare == e.checksum then (true, e) else (false, bare)

unfoldable pub first_byte : DirectoryEntry → ℕ
first_byte e = get_or e.file_name 0 0

-- the test of the handlers: an entry that is valid and not free
unfoldable pub is_live : DirectoryEntry → Bool
is_live e = (validate_entry e).0 && not (first_byte e == entry_free)

unfoldable pub is_file : DirectoryEntry → Bool
is_file e = not (bit_and e.attributes file_directory == file_directory)

-- the first `n` entries of decoded bytes, and entries as bytes
unfoldable pub entries_of : ℕ → List ℕ → List DirectoryEntry
entries_of zero bytes = []
entries_of (suc n) bytes = directory_of (take 32 bytes) ∷ entries_of n (drop 32 bytes)

unfoldable pub entries_bytes : List DirectoryEntry → List ℕ
entries_bytes [] = []
entries_bytes (e ∷ es) = directory_bytes e ++ entries_bytes es

-- `entries_per_cluster`
unfoldable pub entries_per_cluster : FatData → ℕ
entries_per_cluster fi = fi.cluster_size / 2 / 32

-- What the handlers work on: the state, and a context `C`. The place of an entry is its cluster and
-- its offset there.
abbrev pub Handler : Type 0 → Type 0 → Type 0
Handler S C = ℕ → ℕ → DirectoryEntry → C → Logged S → (Bool × DirectoryEntry × C) × Logged S

-- the loop over the entries of a cluster: whether it was left, the entries and the context after it
unfoldable pub scan_entries :
    {S C : Type 0}
    → Handler S C
    → ℕ
    → ℕ
    → List DirectoryEntry
    → C
    → Logged S
    → (Bool × List DirectoryEntry × C) × Logged S
scan_entries handler ca i [] c l = ((false, [], c), l)
scan_entries handler ca i (e ∷ es) c l =
    let ((exit, e', c'), l') = handler ca i e c l in
    let ((later, es', c''), l'') = scan_entries handler ca (i + 1) es c' l' in
    if first_byte e == entry_end
    then ((false, e ∷ es, c), l)
    else if exit
    then ((true, e' ∷ es, c'), l')
    else ((later, e' ∷ es', c''), l'')

module _ {S : Type 0} (d : Driver S) (fi : FatData) where
  -- an error, with the journal's state around
  unfoldable pub report : ℕ → Logged S → Logged S
  report code l = record l { state = (register_error d fi code l.state).1 }

  -- `_read_encoded_cluster`, whose buffers are there: the decoded bytes
  unfoldable pub read_encoded_cluster : ℕ → List ℕ → Logged S → Option (List ℕ) × Logged S
  read_encoded_cluster ca old l =
      let ((ok, enc), s) = read_cluster d fi ca old fi.cluster_size l.state in
      let l1 : Logged S = record l { state = s } in
      if ca == cluster_bad
      then (none, report bad_cluster_error l)
      else if ok
      then (some (unpacked enc), l1)
      else (none, report read_cluster_error l1)

  unfoldable pub write_encoded_cluster : ℕ → List ℕ → Logged S → Bool × Logged S
  write_encoded_cluster ca bytes l =
      let (ok, s) = write_cluster d fi ca (packed bytes) fi.cluster_size l.state in
      (ok, record l { state = s })

  module _ {C : Type 0} (handler : Handler S C) (old : List ℕ) where
    -- a round of `entry_iterate`: the next cluster, if there is one to go on with
    unfoldable pub iterate_round : ℕ → List ℕ → C → Logged S → (Bool × Option ℕ × C) × Logged S
    iterate_round ca bytes c l =
        let n = entries_per_cluster fi in
        let ((exit, es, c'), l1) = scan_entries handler ca 0 (entries_of n bytes) c l in
        let (written, l2) = write_encoded_cluster ca (entries_bytes es ++ drop (n * 32) bytes) l1 in
        let (next, s) = read_fat d fi ca l2.state in
        let l3 : Logged S = record l2 { state = s } in
        if not written
        then ((exit, none, c'), report error_correction_error l2)
        else ((exit, (if next == cluster_end || exit then none else some next), c'), l3)

    -- `entry_iterate`; `none` is no end in `fuel` rounds
    unfoldable pub entry_iterate : ℕ → ℕ → C → Logged S → Option ((Bool × C) × Logged S)
    entry_iterate zero ca c l = none
    entry_iterate (suc fuel) ca c l =
        let (got, l1) = read_encoded_cluster ca old l in
        elim got [
          | none ↦ some ((false, c), l1)
          | some bytes ↦
              let ((exit, next, c'), l2) = iterate_round ca bytes c l1 in
              elim next [ none ↦ some ((exit, c'), l2) | some ca' ↦ entry_iterate fuel ca' c' l2 ]
        ]
