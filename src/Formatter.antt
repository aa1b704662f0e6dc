-- ===== src/Formatter.antt =====
-- formatter/nifat32formatter.c: the program that makes a volume in a file. Its copies of the Hamming
-- code and of the hash are those of Hamming and Checksum, line for line. The counts of the options
-- are not negative, and a cluster has a sector at least.
pub mod Options
pub mod Files
pub mod Boots
pub mod Copies
pub mod Mounted
pub mod Sizes
pub mod Names
pub mod Search
pub mod Chains
pub mod Whole
use ni_fat.Base.{
  ℕ, zero, suc, ◌+◌, ◌-◌, ◌*◌, ◌/◌, ◌%◌, ◌==◌, ltb, if◌then◌else◌, Bool, true, false, not, ◌&&◌,
  List, [], ◌∷◌, ◌++◌, length, take, set, replicate, Option, none, some, u8, u16, u32,
}
use ni_fat.Hamming.Buffer.{le32, packed}
use ni_fat.Errors.{errors_sector}
use ni_fat.Journal.{journal_sector}
use ni_fat.Boot.{boot_sector}
use ni_fat.Boot.Sector.{BootSector, boot_bytes, seal_boot}
use ni_fat.Formatter.Options.{Opt}
use ni_fat.Formatter.Files.{
  Volume, Posix, Source, bytes_per_sector, cluster_bytes, copy_files_to_fs,
}

abbrev pub reserved_sectors : ℕ
reserved_sectors = 32

abbrev pub root_dir_cluster : ℕ
root_dir_cluster = 2

-- FAT_ENTRY_RESERVED and FAT_ENTRY_END with 0xF8 << 24
abbrev pub marked_reserved : ℕ
marked_reserved = 0xfffffff8

abbrev pub marked_end : ℕ
marked_end = 0xffffffff

-- GET_FATSECTOR of the formatter
unfoldable pub fat_sector : ℕ → ℕ → ℕ
fat_sector n ts = u32 ((n + 7) * 340573321) / 0x2000 % u32 (ts + 0x100000000 - 32)

-- `data_sectors - opt.fc * fat_size` of `total_sectors`
unfoldable pub sectors_left : Opt → ℕ → ℕ → ℕ
sectors_left o ts fat_size =
    u32 (u32 (ts + 0x100000000 - reserved_sectors) + 0x100000000 - u32 (o.fc * fat_size))

-- a round of `_calculate_fat_size`; `sizeof` makes the sum one of 64 bits
unfoldable pub next_fat_size : Opt → ℕ → ℕ → ℕ
next_fat_size o ts fat_size =
    let clusters = sectors_left o ts fat_size / o.spc in
    (clusters * 4 + bytes_per_sector - 1) / bytes_per_sector

unfoldable pub fat_size_loop : Opt → ℕ → ℕ → ℕ → Option ℕ
fat_size_loop o ts zero prev = none
fat_size_loop o ts (suc fuel) prev =
    let size = next_fat_size o ts prev in
    elim (size == prev) [ true ↦ some size | false ↦ fat_size_loop o ts fuel size ]

-- `_calculate_fat_size`
unfoldable pub calculate_fat_size : Opt → ℕ → ℕ → Option ℕ
calculate_fat_size o ts fuel = fat_size_loop o ts fuel 0

-- `total_sectors`, `total_clusters` and `data_start`
unfoldable pub volume_sectors : Opt → ℕ
volume_sectors o = u32 (o.v_size * 0x100000) / bytes_per_sector

unfoldable pub volume_clusters : Opt → ℕ → ℕ → ℕ
volume_clusters o ts fat_size = sectors_left o ts fat_size / o.spc

unfoldable pub data_start : Opt → ℕ → ℕ
data_start o fat_size = u32 ((reserved_sectors + o.fc * fat_size) * bytes_per_sector)

-- the boot sector of `_write_bs`
unfoldable pub bare_formatted : Opt → ℕ → ℕ → BootSector
bare_formatted o ts fat_size = record {
  bootjmp = 0xeb ∷ 0x58 ∷ 0x90 ∷ [];
  oem_name = 78 ∷ 73 ∷ 70 ∷ 65 ∷ 84 ∷ 32 ∷ 51 ∷ 50 ∷ [];
  bytes_per_sector = bytes_per_sector;
  sectors_per_cluster = u8 o.spc;
  reserved_sector_count = reserved_sectors;
  table_count = u8 o.fc;
  root_entry_count = 0;
  total_sectors_16 = 0;
  media_type = 0xf8;
  table_size_16 = 0;
  sectors_per_track = 63;
  head_side_count = 255;
  hidden_sector_count = 0;
  total_sectors_32 = ts;
  ext = record {
    table_size_32 = fat_size;
    extended_flags = 0;
    fat_version = 0;
    root_cluster = root_dir_cluster;
    drive_number = 0x80;
    boot_signature = 0x29;
    volume_id = 0x12345678;
    volume_label = 82 ∷ 79 ∷ 79 ∷ 84 ∷ 95 ∷ 76 ∷ 65 ∷ 66 ∷ 69 ∷ 76 ∷ 32 ∷ [];
    fat_type_label = 78 ∷ 73 ∷ 70 ∷ 65 ∷ 84 ∷ 51 ∷ 50 ∷ 32 ∷ [];
    checksum = 0;
  };
  checksum = 0;
}

unfoldable pub formatted_boot : Opt → ℕ → ℕ → BootSector
formatted_boot o ts fat_size = seal_boot (bare_formatted o ts fat_size)

-- the table after `memset`, and a cluster of it that is reserved
unfoldable pub reserve : ℕ → ℕ → List ℕ → List ℕ
reserve tc c table = if ltb c tc then set table c marked_reserved else table

-- the loops over the copies of a sector, with those left and the next one's number
unfoldable pub reserve_copies : Opt → (ℕ → ℕ) → ℕ → ℕ → ℕ → List ℕ → List ℕ
reserve_copies o place tc zero i table = table
reserve_copies o place tc (suc n) i table =
    reserve_copies o place tc n (i + 1) (reserve tc (place i / o.spc) table)

-- the loop over the clusters of a table's copy, with `left` of its bytes to cover; `n` is the clusters
-- in front of the end of the volume
unfoldable pub reserve_run : Opt → ℕ → ℕ → ℕ → ℕ → List ℕ → List ℕ
reserve_run o tc zero c left table = table
reserve_run o tc (suc n) c left table =
    let rest = reserve_run o tc n (c + 1) (left - o.spc * bytes_per_sector) (reserve tc c table) in
    if left == 0 then table else rest

unfoldable pub reserve_fats : Opt → ℕ → ℕ → ℕ → ℕ → List ℕ → List ℕ
reserve_fats o ts tc zero i table = table
reserve_fats o ts tc (suc n) i table =
    let c = u32 (reserved_sectors + fat_sector i ts) / o.spc in
    reserve_fats o ts tc n (i + 1) (reserve_run o tc (tc - c) c (tc * 4 * 2) table)

-- `_initialize_fat`; the volume has three clusters at least
unfoldable pub initialize_fat : Opt → ℕ → ℕ → List ℕ → List ℕ
initialize_fat o ts tc table =
    let first = set (set (set table 0 marked_reserved) 1 marked_end) 2 marked_end in
    let boots = reserve_copies o (λ i. boot_sector i ts) tc o.bsbc 0 first in
    let fats = reserve_fats o ts tc o.fc 0 boots in
    let journals = reserve_copies o (λ i. journal_sector i ts) tc o.jc 0 fats in
    reserve_copies o (λ i. errors_sector i ts) tc o.ec 0 journals

-- the bytes of the table
unfoldable pub table_bytes : List ℕ → List ℕ
table_bytes [] = []
table_bytes (v ∷ vs) = le32 v ++ table_bytes vs

module _ {S : Type 0} (f : Posix S) where
  -- `pwrite(fd, bytes, ...) == sizeof(bytes)`
  unfoldable pub put_bytes : ℕ → List ℕ → S → Bool × S
  put_bytes off bytes t = let (n, t') = f.pwrite t off bytes in (n == length bytes, t')

  -- a call after one that went well
  abbrev pub and_then : Bool × S → (S → Bool × S) → Bool × S
  and_then (true, t) next = next t
  and_then (false, t) next = (false, t)

  -- a copy of the boot sector: the sector is cleared first
  unfoldable pub put_boot : ℕ → List ℕ → ℕ → S → Bool × S
  put_boot ts bytes i t =
      let off = u32 (boot_sector i ts * bytes_per_sector) in
      and_then (put_bytes off (replicate bytes_per_sector 0) t) (put_bytes off bytes)

  -- a loop over copies, with those left and the next one's number
  unfoldable pub put_all : (ℕ → S → Bool × S) → ℕ → ℕ → S → Bool × S
  put_all one zero i t = (true, t)
  put_all one (suc n) i t = and_then (one i t) (put_all one n (i + 1))

  -- `_write_bs`; `granted` is whether `malloc` finds room
  unfoldable pub write_bs : Opt → Bool → ℕ → ℕ → S → Bool × S
  write_bs o granted ts fat_size t =
      let bytes = packed (boot_bytes (formatted_boot o ts fat_size)) in
      if granted then put_all (put_boot ts bytes) (o.bsbc - o.b_bsbc) o.b_bsbc t else (false, t)

  -- a cleared cluster
  unfoldable pub wipe_area : Opt → ℕ → S → Bool × S
  wipe_area o sector =
      put_bytes (u32 (sector * bytes_per_sector)) (replicate (bytes_per_sector * o.spc) 0)

  -- `_write_journals` and `_write_errors`
  unfoldable pub write_journals : Opt → ℕ → S → Bool × S
  write_journals o ts = put_all (λ i. wipe_area o (journal_sector i ts)) o.jc 0

  unfoldable pub write_errors : Opt → ℕ → S → Bool × S
  write_errors o ts = put_all (λ i. wipe_area o (errors_sector i ts)) o.ec 0

  -- a copy of the table
  unfoldable pub put_fat : ℕ → List ℕ → ℕ → S → Bool × S
  put_fat ts encoded i =
      put_bytes (u32 (u32 (reserved_sectors + fat_sector i ts) * bytes_per_sector)) encoded

  -- `_write_fats`; `behind` is what lies behind the table in memory
  unfoldable pub write_fats : Opt → Bool → List ℕ → List ℕ → ℕ → ℕ → S → Bool × S
  write_fats o granted behind table fat_size ts t =
      let encoded = packed (take (fat_size * bytes_per_sector) (table_bytes table ++ behind)) in
      if granted then put_all (put_fat ts encoded) o.fc 0 t else (false, t)

  -- `_write_root_directory`
  unfoldable pub write_root_directory : ℕ → S → Bool × S
  write_root_directory start = put_bytes start (replicate cluster_bytes 0)

  -- the files of `main`: the volume after them, and whether it goes on
  unfoldable pub add_files : Opt → Bool → List Source → ℕ → ℕ → Volume S → Bool × Volume S
  add_files o readable sources start tc v = elim o.source_path [
    | none ↦ (true, v)
    | some path ↦ if readable then copy_files_to_fs f sources start tc v else (false, v)
  ]

  -- the end of `main`: the copies of the table, whose failure is only printed
  unfoldable pub finish_volume : Opt → Bool → List ℕ → ℕ → ℕ → Bool × Volume S → Bool × S
  finish_volume o granted behind fat_size ts (false, v) = (false, v.file)
  finish_volume o granted behind fat_size ts (true, v) =
      (true, (write_fats o granted behind v.table fat_size ts v.file).1)

  -- `main` from `_write_bs` on
  unfoldable pub make_volume : Opt → Bool → Bool → List Source → List ℕ → ℕ → ℕ → S → Bool × S
  make_volume o granted readable sources behind ts fat_size t =
      let tc = volume_clusters o ts fat_size in
      let start = data_start o fat_size in
      let (ready, t1) = and_then (write_bs o granted ts fat_size t) λ t.
        and_then (write_journals o ts t)
          λ t. and_then (write_errors o ts t) (write_root_directory start) in
      let v : Volume S = record {
        file = t1;
        table = initialize_fat o ts tc (replicate tc 0);
        last_alloc = 3;
      } in
      elim ready [
        | false ↦ (false, t1)
        | true ↦
            finish_volume o granted behind fat_size ts (add_files o readable sources start tc v)
      ]

  -- `main` with a file that was made: `none` is a loop of `_calculate_fat_size` that does not end in
  -- `fuel` rounds
  unfoldable pub format : Opt → Bool → Bool → List Source → List ℕ → ℕ → S → Option (Bool × S)
  format o granted readable sources behind fuel t =
      let ts = volume_sectors o in
      elim (calculate_fat_size o ts fuel) [
        | none ↦ none
        | some fat_size ↦ some (make_volume o granted readable sources behind ts fat_size t)
      ]
