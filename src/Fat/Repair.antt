-- ===== src/Fat/Repair.antt =====
-- src/fat.c: the repair of the copies in `read_fat`.
use ni_fat.Base.{ℕ, ◌+◌, ◌<◌, ◌≤◌, ◌≡◌, ◌≢◌, refl, ap, ◌∙◌, arith, true, false}
use ni_fat.Base.{List, length, none}
use ni_fat.Threading.{null_lock}
use ni_fat.State.{FatData, Core, State, Driver, IsDevice, ready}
use ni_fat.Vote.{Vote, start, votes, needs_repair}
use ni_fat.Hamming.Buffer.{le32, packed}
use ni_fat.Hamming.Buffer.Roundtrip.{length-packed-le32}
use ni_fat.Disk.Sectors.{at_rest}
use ni_fat.Disk.Copies.{put_copies-Holds}
use ni_fat.Fat.Alone.{held_lock, updated, drop_fat_lock-at_rest, record_value}
use ni_fat.Fat.Copies.{
  entry_off, Copy, put, CopiesHold, write_fat_copies-at_rest, write_fat_copies_total,
}
use ni_fat.Fat.{
  entry_sector, is_outside, known, cluster_bad, release_fat, adopt_value, write_fat_locked,
  write_fat_copies, read_fat, cache_value, mark_cluster,
}
use ni_fat.Fat.Stored.{read_fat-uncached}

-- Where `read_fat` finds that the copies differ, it leaves every copy with the value that it
-- returns. The device takes and keeps every write; the cache does not have the value.
pub read_fat-repairs :
    {S : Type 0} (d : Driver S) (fi : FatData) (c : Core S) (ca : ℕ) (xs : List ℕ)
    → IsDevice d c.sector_size
    → ((t : S) (sa off : ℕ) (bytes : List ℕ) → (d.write_sector t sa off bytes).0 ≢ 0)
    → is_outside fi ca ≡ false
    → entry_off d fi ca + 8 ≤ c.sector_size
    → known ca c.fat ≡ none
    → length xs ≡ fi.fat_count
    → CopiesHold d fi c ca 0 xs
    → needs_repair (votes (start cluster_bad) xs) ≡ true
    → let (value, s) = read_fat d fi ca (ready c) in
      (j : ℕ) → j < fi.fat_count → Copy d fi s.core ca value j
read_fat-repairs {S} d fi c ca xs dev takes inside fits unknown len held differ =
    let v : Vote = votes (start cluster_bad) xs in
    let x : ℕ = v.value in
    let N : ℕ = null_lock in
    let s1 : State S = at_rest c N N held_lock N in
    let c2 : Core S = updated ca x (updated ca x c) in
    let locked : write_fat_locked d fi ca x (mark_cluster ca x (cache_value ca x s1))
        ≡ write_fat_copies d fi ca x fi.fat_count 0 true (at_rest c2 N N held_lock N) =
      unfold write_fat_locked in
      rw (record_value N held_lock N c ca x) (
        ap (write_fat_copies d fi ca x fi.fat_count 0 true)
          (record_value N held_lock N (updated ca x c) ca x)) in
    let (all, made) =
      write_fat_copies-at_rest d fi c2 N N held_lock N ca x fi.fat_count 0 fits
        (write_fat_copies_total d fi c2 N N held_lock N ca x fi.fat_count 0 fits takes) in
    let c3 : Core S = record c2 { store = (put d fi ca x fi.fat_count 0 c.store).1 } in
    let adopted : adopt_value d fi ca (v, s1) ≡ (x, at_rest c3 N N held_lock N) =
      unfold adopt_value in rw (differ, locked, made) refl in
    let done : read_fat d fi ca (ready c) ≡ (x, ready c3) =
      read_fat-uncached d fi c ca inside fits xs unknown len held
      ∙ ap (release_fat d fi) adopted
      ∙ (unfold release_fat in rw (drop_fat_lock-at_rest c3 N N N) refl) in
    λ j h. rw done (
      put_copies-Holds d (entry_off d fi ca) (packed (le32 x)) (entry_sector fi ca) c.sector_size
        dev (omega (arith, length-packed-le32 x)) fi.fat_count 0 c.store j all (omega arith)
        (omega arith))
