-- ===== src/Cluster.antt =====
-- src/cluster.c: the allocator of clusters, their deallocation, and the transfers of their data.
pub mod Claim
pub mod Data
use ni_fat.Base.{
  ℕ, zero, suc, ◌+◌, ◌-◌, ◌*◌, ◌/◌, ◌%◌, ◌==◌, leb, if◌then◌else◌, Bool, true, false, not, ◌||◌,
}
use ni_fat.Base.{List, Option, none, some, u16, u32}
use ni_fat.Threading.{require_write, release_write, quiet, thread_num}
use ni_fat.State.{FatData, Guard, Core, State, Driver}
use ni_fat.Disk.{readoff_sectors, writeoff_sectors, copy_sectors}
use ni_fat.Errors.{register_error}
use ni_fat.Fatmap.{find_free}
use ni_fat.Fat.{
  cluster_free, cluster_bad, cluster_reserved, cluster_end, write_fat_error, write_fat, read_fat,
}

abbrev pub no_cluster_offset : ℕ
no_cluster_offset = 0xdeadbeef

abbrev pub writelock_cluster_error : ℕ
writelock_cluster_error = 45

abbrev pub cluster_deallocation_error : ℕ
cluster_deallocation_error = 37

-- `get_cluster_count`
unfoldable pub cluster_count : ℕ → FatData → ℕ
cluster_count size fi = size / u32 (fi.sectors_per_cluster * fi.bytes_per_sector)

unfoldable pub set_last : {S : Type 0} → ℕ → State S → State S
set_last n s = let c = s.core in record s { core = record c { last_allocated = n } }

-- `get_cluster_offset`, with GET_CLUSTER_OFF; `entry_offset` is not negative or -1.
unfoldable pub get_cluster_offset : {S : Type 0} → FatData → State S → ℕ × State S
get_cluster_offset fi s = elim fi.entry_offset [
  | none ↦ (no_cluster_offset, s)
  | some e ↦
      let last = u32 (s.core.last_allocated + e) in
      let room = u32 (fi.total_clusters + 0x100000000 - fi.ext_root_cluster) in
      (u32 ((last + 11) * 3024953) / 2 % room, set_last last s)
]

-- taking and giving back `_allocater_lock`
unfoldable pub take_allocater_lock : {S : Type 0} → State S → Bool × State S
take_allocater_lock s =
    let g = s.guard in
    let got = require_write quiet g.allocater_lock thread_num in
    (got.taken, record s { guard = record g { allocater_lock = got.word } })

unfoldable pub drop_allocater_lock : {S : Type 0} → State S → State S
drop_allocater_lock s =
    let g = s.guard in
    let freed = (release_write 1 quiet g.allocater_lock thread_num).word in
    record s { guard = record g { allocater_lock = freed } }

-- `*curr_offt`, which is the static variable or the argument `offt`
unfoldable pub curr_offset : {S : Type 0} → ℕ → State S → ℕ
curr_offset offt s = if offt == no_cluster_offset then s.core.last_allocated else offt

unfoldable pub move_offset : {S : Type 0} → ℕ → ℕ → State S → State S
move_offset offt n s = if offt == no_cluster_offset then set_last n s else s

-- `is_cluster_bad(cluster_status) || is_cluster_reserved(cluster_status)`
unfoldable pub is_skipped : ℕ → Bool
is_skipped value = value == cluster_bad || value == cluster_reserved

-- the `while` condition of `dealloc_chain`
unfoldable pub is_link : ℕ → Bool
is_link ca = not (ca == cluster_end || (ca == cluster_bad || ca == cluster_free))

-- `start_sect`
unfoldable pub cluster_sector : FatData → ℕ → ℕ
cluster_sector fi ca = u32 (
    u32 (ca + 0x100000000 - fi.ext_root_cluster) * u16 fi.sectors_per_cluster
    + fi.first_data_sector)

module _ {S : Type 0} (d : Driver S) (fi : FatData) where
  -- what `alloc_cluster` does with the outcome of its `write_fat`
  unfoldable pub finish_claim : ℕ → ℕ → Bool × State S → ℕ × State S
  finish_claim offt cluster (true, s) =
      (cluster, drop_allocater_lock (move_offset offt (u32 (cluster + 1)) s))
  finish_claim offt cluster (false, s) = (cluster_bad, drop_allocater_lock s)

  -- a free cluster is marked as reserved
  unfoldable pub claim : ℕ → ℕ → State S → ℕ × State S
  claim offt cluster s = finish_claim offt cluster (write_fat d fi cluster cluster_reserved s)

  -- The loop of `alloc_cluster`, with `nfree_skip_step`. It makes at most `total_clusters` rounds.
  unfoldable pub scan_clusters : ℕ → ℕ → ℕ → ℕ → State S → ℕ × State S
  scan_clusters zero offt cluster skip s =
      (cluster_bad, drop_allocater_lock (move_offset offt fi.ext_root_cluster s))
  scan_clusters (suc fuel) offt cluster skip s =
      let (value, s') = read_fat d fi cluster s in
      elim (leb fi.total_clusters cluster) [
        | true ↦ (cluster_bad, drop_allocater_lock (move_offset offt fi.ext_root_cluster s))
        | false ↦ elim (value == cluster_free) [
          | true ↦ claim offt cluster s'
          | false ↦ elim (is_skipped value) [
            | true ↦ scan_clusters fuel offt (u32 (cluster + skip + 1)) (skip + 1) s'
            | false ↦ scan_clusters fuel offt (u32 (cluster + 1)) skip s'
          ]
        ]
      ]

  -- `alloc_cluster` after `fatmap_find_free`; its 0 stands for no cluster.
  unfoldable pub try_found : ℕ → ℕ → ℕ × State S → ℕ × State S
  try_found offt from (found, s) =
      let (value, s') = read_fat d fi found s in
      elim (found == 0) [
        | true ↦ scan_clusters fi.total_clusters offt from 0 s
        | false ↦ elim (value == cluster_free) [
          | true ↦ claim offt found s'
          | false ↦ scan_clusters fi.total_clusters offt from 0 s'
        ]
      ]

  -- `alloc_cluster`
  unfoldable pub alloc_cluster : ℕ → State S → ℕ × State S
  alloc_cluster offt s =
      let (held, s1) = take_allocater_lock s in
      let from = curr_offset offt s1 in
      elim held [
        | false ↦ (cluster_bad, (register_error d fi writelock_cluster_error s1).1)
        | true ↦ try_found offt from (find_free from 1 fi s1)
      ]

  -- what `dealloc_cluster` does with the outcome of `set_cluster_free`
  unfoldable pub report_free : Bool × State S → Bool × State S
  report_free (true, s) = (true, s)
  report_free (false, s) = (false, (register_error d fi write_fat_error s).1)

  -- `dealloc_cluster`
  unfoldable pub dealloc_cluster : ℕ → State S → Bool × State S
  dealloc_cluster ca s =
      let (value, s') = read_fat d fi ca s in
      elim (value == cluster_free) [
        | true ↦ (true, s')
        | false ↦ report_free (write_fat d fi ca cluster_free s')
      ]

  -- `dealloc_chain` in at most `fuel` rounds; `none` where these are not enough
  unfoldable pub dealloc_chain : ℕ → ℕ → State S → Option Bool × State S
  dealloc_chain zero ca s = (none, s)
  dealloc_chain (suc fuel) ca s =
      let (next, s1) = read_fat d fi ca s in
      let (freed, s2) = dealloc_cluster ca s1 in
      elim freed [
        | false ↦ (some false, (register_error d fi cluster_deallocation_error s2).1)
        | true ↦ elim (is_link next) [ true ↦ dealloc_chain fuel next s2 | false ↦ (some true, s2) ]
      ]

  -- The transfers return 1 or 0.
  unfoldable pub readoff_cluster : ℕ → ℕ → List ℕ → ℕ → State S → (Bool × List ℕ) × State S
  readoff_cluster ca offset buffer size s =
      readoff_sectors d (cluster_sector fi ca) offset buffer size fi.sectors_per_cluster s

  unfoldable pub read_cluster : ℕ → List ℕ → ℕ → State S → (Bool × List ℕ) × State S
  read_cluster ca buffer size s = readoff_cluster ca 0 buffer size s

  unfoldable pub writeoff_cluster : ℕ → ℕ → List ℕ → ℕ → State S → Bool × State S
  writeoff_cluster ca offset data_bytes size s =
      writeoff_sectors d (cluster_sector fi ca) offset data_bytes size fi.sectors_per_cluster s

  unfoldable pub write_cluster : ℕ → List ℕ → ℕ → State S → Bool × State S
  write_cluster ca data_bytes size s = writeoff_cluster ca 0 data_bytes size s

  unfoldable pub copy_cluster : ℕ → ℕ → List ℕ → ℕ → State S → ℕ × State S
  copy_cluster src dst buffer size s =
      copy_sectors d (cluster_sector fi src) (cluster_sector fi dst) fi.sectors_per_cluster buffer
        size s
