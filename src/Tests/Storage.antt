-- ===== src/Tests/Storage.antt =====
-- The theorems on stored data, on the device in memory.
use ni_fat.Base.{inl, inr, ◌≡◌, refl, arith, true, [], ◌∷◌, some}
use ni_fat.State.{Core, ready}
use ni_fat.Threading.{
  null_lock, require_write, release_write, attempts, try_write, try_release_write,
}
use ni_fat.Vote.{start, step, replaces, votes, needs_repair}
use ni_fat.Vote.Majority.{count}
use ni_fat.Hamming.{pack_memory, set_byte, encode}
use ni_fat.Hamming.Buffer.{le32, word_bytes, packed}
use ni_fat.Disk.{
  conflicts, scan, grant, lock_area, clear_area, unlock_area, write_rounds, writeoff_sectors,
  readoff_sectors,
}
use ni_fat.Disk.Sectors.{readoff-writeoff_sectors}
use ni_fat.Errors.{
  errors_sector, next_ring_index, advance, write_error_copy, write_error_copies, write_error,
  dump_info, register_error, last_error, take_errors_lock, drop_errors_lock, set_errors,
}
use ni_fat.Errors.Stored.{last-register_error}
use ni_fat.Errors.Lost.{register_error_past_sector}
use ni_fat.Fatmap.{change, fatmap_set, fatmap_unset, take_fatmap_lock, drop_fatmap_lock, set_bitmap}
use ni_fat.Fat.{
  fat_sector, entry_pos, entry_sector, is_outside, known, cached, cache_value, set_fat,
  mark_cluster, take_fat_lock, drop_fat_lock, release_fat, report_write, write_fat_copy,
  write_fat_copies, write_fat_locked, write_fat, read_fat,
}
use ni_fat.Fat.Copies.{CopiesHold, Copy}
use ni_fat.Fat.Stored.{read-write_fat, read_fat-majority}
use ni_fat.Fat.Apart.{write_fat-CopiesHold}
use ni_fat.Fat.Repair.{read_fat-repairs}
use ni_fat.Cluster.{
  alloc_cluster, scan_clusters, no_cluster_offset, readoff_cluster, writeoff_cluster,
}
use ni_fat.Cluster.Claim.{Claims, search_start, alloc_cluster-Claims, scan_clusters-enough}
use ni_fat.Cluster.Data.{HasDataArea, readoff_cluster-writeoff_cluster_apart}
use ni_fat.Tests.Device.{Store, slice, stored, memory, memory-IsDevice, volume, blank}

read-write_fat_example :
    (read_fat memory volume 5 (write_fat memory volume 5 7 (ready blank)).1).0 ≡ 7
unfolding entry_pos write_fat take_fat_lock drop_fat_lock is_outside release_fat write_fat_locked
    write_fat_copies write_fat_copy report_write entry_sector fat_sector mark_cluster fatmap_set
    fatmap_unset change take_fatmap_lock drop_fatmap_lock set_bitmap cache_value cached set_fat
    writeoff_sectors lock_area scan grant conflicts clear_area unlock_area write_rounds
    require_write release_write attempts try_write try_release_write
read-write_fat_example =
    read-write_fat memory volume blank 5 7 memory-IsDevice (omega arith) (omega arith) (omega arith)
      tt refl

-- entry 5 is 7 in the first two copies, and 0 in the third
abbrev split : Core Store
split = record blank {
  store = stored (stored blank.store 1835 40 (packed (le32 7))) 2679 40 (packed (le32 7));
}

split-CopiesHold : CopiesHold memory volume split 5 0 (7 ∷ 7 ∷ 0 ∷ [])
unfolding entry_pos entry_sector fat_sector slice stored packed le32 word_bytes pack_memory set_byte
    encode
split-CopiesHold = (
  omega arith,
  (omega arith, refl),
  (omega arith, (omega arith, refl), (omega arith, (omega arith, refl), tt)),
)

read_fat-majority_example : (read_fat memory volume 5 (ready split)).0 ≡ 7
unfolding entry_pos known is_outside count
read_fat-majority_example =
    read_fat-majority memory volume split 5 7 (7 ∷ 7 ∷ 0 ∷ []) refl (omega arith) refl refl
      split-CopiesHold (omega arith)

read_fat-repairs_example :
    Copy memory volume
      (read_fat memory volume 5 (ready split)).1.core
      5
      (read_fat memory volume 5 (ready split)).0
      2
unfolding entry_pos known is_outside needs_repair votes start step replaces
read_fat-repairs_example =
    read_fat-repairs memory volume split 5 (7 ∷ 7 ∷ 0 ∷ []) memory-IsDevice
      (λ t sa off bytes. omega arith) refl (omega arith) refl refl split-CopiesHold refl 2
      (omega arith)

last-register_error_example :
    let (oldest, s) = last_error memory volume (register_error memory volume 21 (ready blank)).1 in
    let e = s.core.errors in (oldest ≡ some 21) × (e.first_error ≡ e.last_error)
unfolding register_error take_errors_lock drop_errors_lock set_errors advance next_ring_index
    dump_info write_error write_error_copies write_error_copy errors_sector writeoff_sectors
    lock_area scan grant conflicts clear_area unlock_area write_rounds require_write release_write
    attempts try_write try_release_write
last-register_error_example =
    last-register_error memory volume blank 21 memory-IsDevice refl (omega arith) (omega arith)
      (omega arith) (omega arith) (omega arith) (omega arith) (omega arith) refl

-- an index whose entry lies behind the first sector of a large cluster
abbrev far : Core Store
far = record blank { errors = record { first_error = 1; current = 100; last_error = 100 } }

register_error_past_sector_example :
    register_error memory volume 21 (ready far) ≡ register_error memory volume 22 (ready far)
register_error_past_sector_example =
    register_error_past_sector memory volume far 21 22 (omega arith)

readoff-writeoff_sectors_example :
    let s = (writeoff_sectors memory 20 510 (1 ∷ 2 ∷ 3 ∷ []) 3 2 (ready blank)).1 in
    readoff_sectors memory 20 510 (9 ∷ 9 ∷ 9 ∷ 9 ∷ []) 3 2 s ≡ ((true, 1 ∷ 2 ∷ 3 ∷ 9 ∷ []), s)
unfolding writeoff_sectors lock_area scan grant conflicts clear_area unlock_area write_rounds
    require_write release_write attempts try_write try_release_write
readoff-writeoff_sectors_example =
    readoff-writeoff_sectors memory blank null_lock null_lock null_lock null_lock 20 510
      (1 ∷ 2 ∷ 3 ∷ []) (9 ∷ 9 ∷ 9 ∷ 9 ∷ []) 2 memory-IsDevice (omega arith) (omega arith) refl

volume-HasDataArea : HasDataArea volume
volume-HasDataArea = record { short = omega arith; wide = omega arith; ends = omega arith }

readoff_cluster-writeoff_cluster_apart_example :
    let s = (writeoff_cluster memory volume 7 100 (1 ∷ 2 ∷ []) 2 (ready blank)).1 in
    (readoff_cluster memory volume 8 0 (9 ∷ 9 ∷ []) 2 s).0
    ≡ (readoff_cluster memory volume 8 0 (9 ∷ 9 ∷ []) 2 (ready blank)).0
readoff_cluster-writeoff_cluster_apart_example =
    readoff_cluster-writeoff_cluster_apart memory volume blank 7 8 100 2 0 2 (1 ∷ 2 ∷ [])
      (9 ∷ 9 ∷ []) memory-IsDevice volume-HasDataArea (omega arith) (omega arith) (omega arith)

alloc_cluster-Claims_example :
    Claims memory volume no_cluster_offset
      (search_start memory volume no_cluster_offset (ready blank))
      (alloc_cluster memory volume no_cluster_offset (ready blank))
alloc_cluster-Claims_example = alloc_cluster-Claims memory volume no_cluster_offset (ready blank)

scan_clusters-enough_example :
    scan_clusters memory volume 40 no_cluster_offset 10 0 (ready blank)
    ≡ scan_clusters memory volume 30 no_cluster_offset 10 0 (ready blank)
scan_clusters-enough_example =
    scan_clusters-enough memory volume 40 30 no_cluster_offset 10 0 (ready blank) (omega arith)
      (omega arith) (omega arith) (omega arith)

-- entry 6 of the blank volume holds 0, and keeps it when 7 is written to entry 5
blank-CopiesHold : CopiesHold memory volume blank 6 0 (0 ∷ 0 ∷ 0 ∷ [])
unfolding entry_pos slice packed le32 word_bytes pack_memory set_byte encode
blank-CopiesHold = (
  omega arith,
  (omega arith, refl),
  (omega arith, (omega arith, refl), (omega arith, (omega arith, refl), tt)),
)

write_fat-CopiesHold_example :
    CopiesHold memory volume (write_fat memory volume 5 7 (ready blank)).1.core 6 0 (0 ∷ 0 ∷ 0 ∷ [])
unfolding entry_pos write_fat take_fat_lock drop_fat_lock is_outside release_fat write_fat_locked
    write_fat_copies write_fat_copy report_write entry_sector fat_sector mark_cluster fatmap_set
    fatmap_unset change take_fatmap_lock drop_fatmap_lock set_bitmap cache_value cached set_fat
    writeoff_sectors lock_area scan grant conflicts clear_area unlock_area write_rounds
    require_write release_write attempts try_write try_release_write
write_fat-CopiesHold_example =
    write_fat-CopiesHold memory volume blank 5 6 7 (0 ∷ 0 ∷ 0 ∷ []) memory-IsDevice refl
      (λ i j p q. inr (inl (omega arith))) (omega arith) (omega arith) (omega arith)
      blank-CopiesHold refl
