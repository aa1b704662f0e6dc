-- ===== src/State.antt =====
-- The state that the modules of the file system share: the static variables of src/*.c, the
-- `fat_data_t` of include/nft32/fatinfo.h that every call carries, and the block device, which the
-- caller of `NIFAT32_init` provides as two callbacks (`disk_io_t` of include/nft32/disk.h).
use ni_fat.Base.{ℕ, ◌+◌, ◌≤◌, ◌≢◌, ◌⊎◌, ◌≡◌, List, length, replicate, Bool, false, Option, none}
use ni_fat.Threading.{null_lock}

-- `fat_data_t`, without the fields that none of the modelled functions reads. `entry_offset` is a
-- `char`: -1 stands as `none`.
pub record FatData : Type 0 where
  pub fat_count : ℕ
  pub first_data_sector : ℕ
  pub total_sectors : ℕ
  pub total_clusters : ℕ
  pub bytes_per_sector : ℕ
  pub cluster_size : ℕ
  pub sectors_per_cluster : ℕ
  pub ext_root_cluster : ℕ
  pub sectors_padd : ℕ
  pub journals_count : ℕ
  pub errors_count : ℕ
  pub entry_offset : Option ℕ

-- The callbacks, over the device's own state `S`. A result 0 is a failure. What `read_sector`
-- stores into the buffer comes back as a list.
pub record Driver (S : Type 0) : Type 0 where
  pub read_sector : S → ℕ → ℕ → ℕ → ℕ × List ℕ
  pub write_sector : S → ℕ → ℕ → List ℕ → ℕ × S

-- What is expected of a device with sectors of `size` bytes, for transfers that stay inside a
-- sector: bytes that were written are read back, and a write changes no byte outside its range.
pub record IsDevice {S : Type 0} (d : Driver S) (size : ℕ) : Type 0 where
  pub read_back :
      (t : S) (sa off : ℕ) (bytes : List ℕ)
      → off + length bytes ≤ size
      → (d.write_sector t sa off bytes).0 ≢ 0
      → ((d.read_sector (d.write_sector t sa off bytes).1 sa off (length bytes)).0 ≢ 0)
        × ((d.read_sector (d.write_sector t sa off bytes).1 sa off (length bytes)).1 ≡ bytes)
  pub read_apart :
      (t : S) (sa off : ℕ) (bytes : List ℕ) (sb o n : ℕ)
      → off + length bytes ≤ size
      → o + n ≤ size
      → (sa ≢ sb) ⊎ ((off + length bytes ≤ o) ⊎ (o + n ≤ off))
      → d.read_sector (d.write_sector t sa off bytes).1 sb o n ≡ d.read_sector t sb o n

-- `io_area_t`; a count of -1 marks a free entry and stands as `none`.
pub record Area : Type 0 where
  pub start : ℕ
  pub count : Option ℕ
  pub ro : Bool

abbrev pub free_area : Area
free_area = record { start = 0; count = none; ro = false }

-- IO_THREADS_MAX entries
abbrev pub free_areas : List Area
free_areas = replicate 25 free_area

-- the locks, and the areas of the disk that are in use
pub record Guard : Type 0 where
  pub io_lock : ℕ
  pub areas : List Area
  pub errors_lock : ℕ
  pub fatmap_lock : ℕ
  pub fat_lock : ℕ
  pub allocater_lock : ℕ

-- no transfer in progress
abbrev pub idle : ℕ → ℕ → ℕ → ℕ → Guard
idle errors_lock fatmap_lock fat_lock allocater_lock = record {
  io_lock = null_lock;
  areas = free_areas;
  errors_lock = errors_lock;
  fatmap_lock = fatmap_lock;
  fat_lock = fat_lock;
  allocater_lock = allocater_lock;
}

abbrev pub unlocked : Guard
unlocked = idle null_lock null_lock null_lock null_lock

-- `errors_t`
pub record Errors : Type 0 where
  pub first_error : ℕ
  pub current : ℕ
  pub last_error : ℕ

-- What the locks protect: the device, the error ring, the cache `_fat`, the bitmap `_bitmap` and
-- `last_allocated_cluster`.
pub record Core (S : Type 0) : Type 0 where
  pub store : S
  pub sector_size : ℕ
  pub errors : Errors
  pub fat : Option (List ℕ)
  pub bitmap : Option (List ℕ)
  pub last_allocated : ℕ

pub record State (S : Type 0) : Type 0 where
  pub core : Core S
  pub guard : Guard

-- between two calls of a single thread
abbrev pub ready : {S : Type 0} → Core S → State S
ready c = record { core = c; guard = unlocked }
