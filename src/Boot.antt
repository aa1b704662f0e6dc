-- ===== src/Boot.antt =====
-- nifat32.c, NIFAT32_init and NIFAT32_repair_bootsectors, and the boot sector of nifat32.h: its fields,
-- and the bytes that it has in memory. `_fs_data` is part of the state here.
pub mod Sector
pub mod Start
pub mod Decoded
use ni_fat.Base.{
  ℕ, zero, suc, ◌+◌, ◌-◌, ◌*◌, ◌/◌, ◌%◌, ◌==◌, ltb, leb, if◌then◌else◌, Bool, true, false, not,
  ◌&&◌, ◌||◌, List, [], ◌∷◌, ◌++◌, take, Option, none, some, u8, u16, u32,
}
use ni_fat.State.{FatData, State, Driver}
use ni_fat.Hamming.Buffer.{packed, unpacked}
use ni_fat.Disk.{setup, read_sector, write_sector}
use ni_fat.Errors.{register_error}
use ni_fat.Fat.{fat_cache_init, fat_cache_hload}
use ni_fat.Layout.{JournalEntry}
use ni_fat.Journal.{Logged, restore_from_journal}
use ni_fat.Content.{ctable_init}
use ni_fat.Api.Defs.{World, Api, take_api_lock, drop_api_lock, unlocked_call}
use ni_fat.Boot.Sector.{BootSector, ExtSection, boot_bytes, boot_of, seal_boot, is_valid_boot}
use ni_fat.Errors
use ni_fat.Fatmap

abbrev pub checksum_check_error : ℕ
checksum_check_error = 5

abbrev pub sector_read_error : ℕ
sector_read_error = 23

-- GET_BOOTSECTOR
unfoldable pub boot_sector : ℕ → ℕ → ℕ
boot_sector n ts = u32 ((n + 1) * 2654435761) / 0x800 % u32 (ts + 0x100000000 - 2)

-- `nifat32_params_t`, but for the callbacks: whether these are there, and whether `nft32_malloc_s`
-- finds room for the cache and the bitmap
pub record Params : Type 0 where
  pub fat_cache : ℕ
  pub bs_num : ℕ
  pub bs_count : ℕ
  pub ts : ℕ
  pub jc : ℕ
  pub ec : ℕ
  pub sector_size : ℕ
  pub callbacks : Bool
  pub cache_granted : Bool
  pub map_granted : Bool

-- CACHE, HARD_CACHE and MAP_CACHE
abbrev pub wants_cache : ℕ → Bool
wants_cache mode = mode % 2 == 1

abbrev pub wants_hard_cache : ℕ → Bool
wants_hard_cache mode = mode / 2 % 2 == 1

abbrev pub wants_map_cache : ℕ → Bool
wants_map_cache mode = mode / 4 % 2 == 1

-- the static variables: the lock and what it protects, and `_fs_data` with the two fields of it that
-- only this file reads
pub record Instance (S T : Type 0) : Type 0 where
  pub api : Api S T
  pub info : FatData
  pub bs_count : ℕ
  pub fat_size : ℕ

-- a quotient of `int`s, of which the second is positive
unfoldable pub int_div : ℕ → ℕ → ℕ
int_div a b = if ltb a 0x80000000 then a / b else u32 (0x100000000 - (0x100000000 - a) / b)

unfoldable pub or_one : ℕ → ℕ
or_one n = if n == 0 then 1 else n

-- `root_dir_sectors`, `data_sectors` and `total_clusters`
unfoldable pub root_dir_sectors : BootSector → ℕ
root_dir_sectors b = (b.root_entry_count * 32 + (b.bytes_per_sector - 1)) / b.bytes_per_sector

unfoldable pub data_sectors : BootSector → ℕ
data_sectors b =
    let used =
      u32 (b.reserved_sector_count + b.table_count * b.ext.table_size_32 + root_dir_sectors b) in
    u32 (b.total_sectors_32 + 0x100000000 - used)

unfoldable pub total_clusters : BootSector → ℕ
total_clusters b =
    let sectors = data_sectors b in
    let per_cluster = or_one b.sectors_per_cluster in
    if sectors == 0 then b.total_sectors_32 / per_cluster else int_div sectors per_cluster

-- `_fs_data` after a boot sector with `bytes_per_sector` above 0 was read; what it does not set stays
unfoldable pub info_of : ℕ → BootSector → FatData → FatData
info_of jc b fi = record fi {
  journals_count = jc;
  fat_count = b.table_count;
  total_sectors = b.total_sectors_32;
  total_clusters = total_clusters b;
  first_data_sector = u32 (b.reserved_sector_count + b.table_count * b.ext.table_size_32);
  sectors_per_cluster = b.sectors_per_cluster;
  bytes_per_sector = b.bytes_per_sector;
  sectors_padd = b.reserved_sector_count;
  ext_root_cluster = b.ext.root_cluster;
  cluster_size = b.bytes_per_sector * b.sectors_per_cluster;
}

-- the boot sector in the first bytes of a sector
unfoldable pub decode_boot : List ℕ → BootSector
decode_boot sector = boot_of (unpacked (take 162 sector))

abbrev pub Outcome : Type 0 → Type 0 → Type 0
Outcome S T = Option (Bool × Instance S T)

-- an instance with another state of the file system
unfoldable pub with_state : {S T : Type 0} → Instance S T → State S → Instance S T
with_state n s =
    let a = n.api in
    let w = a.world in
    record n { api = record a { world = record w { logged = record w.logged { state = s } } } }

unfoldable pub leave : {S T : Type 0} → Instance S T → Instance S T
leave n = record n { api = drop_api_lock n.api }

-- the fields that `NIFAT32_repair_bootsectors` sets
unfoldable pub bare_boot : FatData → ℕ → BootSector
bare_boot fi fat_size = record {
  bootjmp = 0xeb ∷ 0x5b ∷ 0x9 ∷ [];
  oem_name = 114 ∷ 101 ∷ 99 ∷ 111 ∷ 118 ∷ 101 ∷ 114 ∷ 32 ∷ [];
  bytes_per_sector = u16 fi.bytes_per_sector;
  sectors_per_cluster = u8 fi.sectors_per_cluster;
  reserved_sector_count = u16 fi.sectors_padd;
  table_count = fi.fat_count;
  root_entry_count = 0;
  total_sectors_16 = 0;
  media_type = 0xf8;
  table_size_16 = 0;
  sectors_per_track = 63;
  head_side_count = 255;
  hidden_sector_count = 0;
  total_sectors_32 = fi.total_sectors;
  ext = record {
    table_size_32 = fat_size;
    extended_flags = 0;
    fat_version = 0;
    root_cluster = fi.ext_root_cluster;
    drive_number = 8;
    boot_signature = 0x5a;
    volume_id = 0x1234;
    volume_label = 82 ∷ 79 ∷ 79 ∷ 84 ∷ 95 ∷ 76 ∷ 65 ∷ 66 ∷ 69 ∷ 76 ∷ 32 ∷ [];
    fat_type_label = 78 ∷ 73 ∷ 70 ∷ 65 ∷ 84 ∷ 51 ∷ 50 ∷ 32 ∷ [];
    checksum = 0;
  };
  checksum = 0;
}

-- the boot sector that it makes
unfoldable pub current_boot : FatData → ℕ → BootSector
current_boot fi fat_size = seal_boot (bare_boot fi fat_size)

-- What it writes: an array of 81 pointers, whose first 162 bytes are the boot sector's. The others
-- are what the array held.
unfoldable pub encoded_boot : List ℕ → BootSector → List ℕ
encoded_boot rest b = packed (boot_bytes b) ++ rest

module _ {S : Type 0} (d : Driver S) where
  -- the loops that write the copies, with those left and the next one's number; `skip` is left out
  unfoldable pub write_boots : Option ℕ → ℕ → List ℕ → ℕ → ℕ → State S → State S
  write_boots skip ts bytes zero i s = s
  write_boots skip ts bytes (suc n) i s =
      let s' = (write_sector d (boot_sector i ts) bytes s).1 in
      write_boots skip ts bytes n (i + 1)
        (elim skip [ none ↦ s' | some k ↦ if i == k then s else s' ])

  -- the caches that are asked for
  unfoldable pub load_caches : Params → FatData → State S → State S
  load_caches p fi s =
      let s1 = (fat_cache_init d fi p.cache_granted s).1 in
      let s2 = if wants_map_cache p.fat_cache then (Fatmap.init d fi p.map_granted s1).1 else s1 in
      let s3 = if wants_hard_cache p.fat_cache then (fat_cache_hload d fi s2).1 else s2 in
      if wants_cache p.fat_cache then s3 else s

  unfoldable pub setup_errors : ℕ → FatData → State S → Bool × State S
  setup_errors ec fi s = if ec == 0 then (true, s) else Errors.setup d fi s

  -- with a boot sector that is correct: the copies, and the caches
  unfoldable pub mount_state : Params → FatData → List ℕ → State S → State S
  mount_state p fi sector s =
      load_caches p fi
        (if p.bs_num == 0 then s else write_boots (some p.bs_num) p.ts sector p.bs_count 0 s)

  -- `restore_from_journal`, whose outcome is only logged
  unfoldable pub recover : (ℕ → ℕ) → (ℕ → JournalEntry) → ℕ → FatData → Logged S → Option (Logged S)
  recover residue places fuel fi l =
      if fi.journals_count == 0
      then some l
      else elim (restore_from_journal d fi residue places fuel l) [
        | none ↦ none
        | some (done, l') ↦ some l'
      ]

  -- `NIFAT32_repair_bootsectors`
  unfoldable pub repair_bootsectors : {T : Type 0} → List ℕ → Instance S T → Bool × Instance S T
  repair_bootsectors rest n =
      let (held, a) = take_api_lock n.api in
      let locked = record n { api = a } in
      let bytes = encoded_boot rest (current_boot n.info n.fat_size) in
      let s = write_boots none n.info.total_sectors bytes n.bs_count 0 a.world.logged.state in
      elim held [ false ↦ (false, locked) | true ↦ (true, leave (with_state locked s)) ]
