-- ===== src/Fat.antt =====
-- src/fat.c: the file allocation table, a 32-bit entry for each cluster in `fat_count` copies, with
-- the cache `_fat`. The build is the one with the cache and with writing.
pub mod Alone
pub mod Copies
pub mod Stored
pub mod Repair
pub mod Apart
use ni_fat.Base.{
  ℕ, zero, suc, ◌+◌, ◌-◌, ◌*◌, ◌/◌, ◌%◌, ◌==◌, ltb, leb, if◌then◌else◌, Bool, true, false,
}
use ni_fat.Base.{not, ◌&&◌, ◌||◌, List, get_or, set, replicate, Option, none, some, u32}
use ni_fat.Threading.{require_write, release_write, quiet, thread_num}
use ni_fat.State.{FatData, Guard, Core, State, Driver}
use ni_fat.Hamming.Buffer.{le32, from_le32, packed, unpacked}
use ni_fat.Vote.{Vote, start, step, needs_repair}
use ni_fat.Disk.{readoff_sectors, writeoff_sectors}
use ni_fat.Errors.{register_error}
use ni_fat.Fatmap.{fatmap_set, fatmap_unset, malloc_error}

abbrev pub cluster_free : ℕ
cluster_free = 0

abbrev pub cluster_bad : ℕ
cluster_bad = 0x0ffffff7

abbrev pub cluster_reserved : ℕ
cluster_reserved = 0x0ffffff8

abbrev pub cluster_end : ℕ
cluster_end = 0x0fffffff

abbrev pub write_fat_error : ℕ
write_fat_error = 21

abbrev pub read_fat_error : ℕ
read_fat_error = 22

-- GET_FATSECTOR
unfoldable pub fat_sector : ℕ → ℕ → ℕ
fat_sector n ts = u32 ((n + 7) * 340573321) / 0x2000 % u32 (ts + 0x100000000 - 23)

-- `fat_offset` and `fat_sector` of `__write_fat__` and `__read_fat__`
unfoldable pub entry_pos : ℕ → ℕ
entry_pos ca = u32 (ca * 8)

unfoldable pub entry_sector : FatData → ℕ → ℕ → ℕ
entry_sector fi ca copy =
    u32 (fi.sectors_padd + fat_sector copy fi.total_sectors + entry_pos ca / fi.bytes_per_sector)

-- taking and giving back `_fat_lock`
unfoldable pub take_fat_lock : {S : Type 0} → State S → Bool × State S
take_fat_lock s =
    let g = s.guard in
    let got = require_write quiet g.fat_lock thread_num in
    (got.taken, record s { guard = record g { fat_lock = got.word } })

unfoldable pub drop_fat_lock : {S : Type 0} → State S → State S
drop_fat_lock s =
    let g = s.guard in
    let freed = (release_write 1 quiet g.fat_lock thread_num).word in
    record s { guard = record g { fat_lock = freed } }

unfoldable pub set_fat : {S : Type 0} → Option (List ℕ) → State S → State S
set_fat t s = let c = s.core in record s { core = record c { fat = t } }

-- `if (_fat) _fat[ca] = value`
unfoldable pub cached : ℕ → ℕ → Option (List ℕ) → Option (List ℕ)
cached ca value none = none
cached ca value (some table) = some (set table ca value)

unfoldable pub cache_value : {S : Type 0} → ℕ → ℕ → State S → State S
cache_value ca value s = set_fat (cached ca value s.core.fat) s

-- the value that the cache has for a cluster, where it is not FAT_CLUSTER_BAD
unfoldable pub known : ℕ → Option (List ℕ) → Option ℕ
known ca none = none
known ca (some table) =
    let value = get_or table ca cluster_bad in if value == cluster_bad then none else some value

-- the update of the bitmap that goes with a value
unfoldable pub mark_cluster : {S : Type 0} → ℕ → ℕ → State S → State S
mark_cluster ca value s =
    if value == cluster_free then (fatmap_set ca s).1 else (fatmap_unset ca s).1

unfoldable pub is_outside : FatData → ℕ → Bool
is_outside fi ca = ltb ca fi.ext_root_cluster || leb fi.total_clusters ca

module _ {S : Type 0} (d : Driver S) (fi : FatData) where
  -- what `__write_fat__` does with the outcome of its transfer
  unfoldable pub report_write : Bool × State S → Bool × State S
  report_write (true, s) = (true, s)
  report_write (false, s) = (false, (register_error d fi write_fat_error s).1)

  -- `__write_fat__`
  unfoldable pub write_fat_copy : ℕ → ℕ → ℕ → State S → Bool × State S
  write_fat_copy ca value copy s = report_write (
      writeoff_sectors d (entry_sector fi ca copy) (entry_pos ca % fi.bytes_per_sector)
        (packed (le32 value)) 8 1 s)

  -- the loop of `_write_fat_locked`, with the copies left and the next copy's number
  unfoldable pub write_fat_copies : ℕ → ℕ → ℕ → ℕ → Bool → State S → Bool × State S
  write_fat_copies ca value zero i result s = (result, s)
  write_fat_copies ca value (suc n) i result s =
      let (written, s') = write_fat_copy ca value i s in
      write_fat_copies ca value n (i + 1) (written && result) s'

  unfoldable pub write_fat_locked : ℕ → ℕ → State S → Bool × State S
  write_fat_locked ca value s =
      write_fat_copies ca value fi.fat_count 0 true (mark_cluster ca value (cache_value ca value s))

  unfoldable pub release_fat : {A : Type 0} → A × State S → A × State S
  release_fat (r, s) = (r, drop_fat_lock s)

  -- `write_fat`
  unfoldable pub write_fat : ℕ → ℕ → State S → Bool × State S
  write_fat ca value s =
      let (held, s1) = take_fat_lock s in
      let result = release_fat (write_fat_locked ca value s1) in
      if is_outside fi ca
      then (false, (register_error d fi write_fat_error s).1)
      else if held
      then result
      else (false, (register_error d fi write_fat_error s1).1)

  -- what `__read_fat__` does with the outcome of its transfer
  unfoldable pub report_read : (Bool × List ℕ) × State S → ℕ × State S
  report_read ((true, buffer), s) = (from_le32 (unpacked buffer) % 0x10000000, s)
  report_read ((false, buffer), s) = (cluster_bad, (register_error d fi read_fat_error s).1)

  -- `__read_fat__`
  unfoldable pub read_fat_copy : ℕ → ℕ → State S → ℕ × State S
  read_fat_copy ca copy s = report_read (
      readoff_sectors d (entry_sector fi ca copy) (entry_pos ca % fi.bytes_per_sector)
        (replicate 8 0) 8 1 s)

  -- the vote of `read_fat`
  unfoldable pub read_fat_copies : ℕ → ℕ → ℕ → Vote → State S → Vote × State S
  read_fat_copies ca zero i v s = (v, s)
  read_fat_copies ca (suc n) i v s =
      let (got, s') = read_fat_copy ca i s in read_fat_copies ca n (i + 1) (step v got) s'

  -- what `read_fat` does with the outcome of the vote
  unfoldable pub adopt_value : ℕ → Vote × State S → ℕ × State S
  adopt_value ca (v, s) =
      let s1 = mark_cluster ca v.value (cache_value ca v.value s) in
      (v.value, if needs_repair v then (write_fat_locked ca v.value s1).1 else s1)

  -- `read_fat`
  unfoldable pub read_fat : ℕ → State S → ℕ × State S
  read_fat ca s =
      let (held, s1) = take_fat_lock s in
      let voted =
        release_fat (adopt_value ca (read_fat_copies ca fi.fat_count 0 (start cluster_bad) s1)) in
      if is_outside fi ca
      then (cluster_bad, (register_error d fi read_fat_error s).1)
      else if held
      then elim (known ca s.core.fat) [ none ↦ voted | some value ↦ (value, drop_fat_lock s1) ]
      else (cluster_bad, (register_error d fi read_fat_error s1).1)

  -- `fat_cache_init`; `granted` is whether `nft32_malloc_s` finds room.
  unfoldable pub fat_cache_init : Bool → State S → Bool × State S
  fat_cache_init granted s =
      let (held, s1) = take_fat_lock s in
      let fresh = replicate fi.total_clusters cluster_bad in
      let failed = (register_error d fi malloc_error (drop_fat_lock s1)).1 in
      elim s.core.fat [
        | some table ↦ (true, s)
        | none ↦
            if not held
            then (false, s1)
            else if granted
            then (true, drop_fat_lock (set_fat (some fresh) s1))
            else (false, failed)
      ]

  -- the loops of `fat_cache_hload` and `fat_repair`, with the clusters left
  unfoldable pub load_from : ℕ → ℕ → State S → State S
  load_from zero ca s = s
  load_from (suc n) ca s =
      let (value, s') = read_fat ca s in load_from n (ca + 1) (mark_cluster ca value s')

  unfoldable pub fat_cache_hload : State S → Bool × State S
  fat_cache_hload s = elim s.core.fat [
    | none ↦ (false, s)
    | some table ↦ (true, load_from fi.total_clusters 0 s)
  ]

  unfoldable pub repair_from : ℕ → ℕ → State S → State S
  repair_from zero ca s = s
  repair_from (suc n) ca s = repair_from n (ca + 1) (read_fat ca s).1

  unfoldable pub fat_repair : State S → Bool × State S
  fat_repair s = (true, repair_from fi.total_clusters 0 s)

-- `fat_cache_unload`
unfoldable pub fat_cache_unload : {S : Type 0} → State S → Bool × State S
fat_cache_unload s =
    let (held, s1) = take_fat_lock s in
    elim s.core.fat [
      | none ↦ (false, s)
      | some table ↦ if held then (true, drop_fat_lock (set_fat none s1)) else (false, s1)
    ]
