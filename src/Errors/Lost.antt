-- ===== src/Errors/Lost.antt =====
-- src/errors.c: the ring has `cluster_size / 4` entries of 8 bytes, the transfer of an entry is one
-- of a single sector.
use ni_fat.Base.{ℕ, zero, suc, ◌+◌, ◌*◌, ◌<◌, ◌≡◌, refl, arith, true, u32, []}
use ni_fat.State.{FatData, Core, Driver, ready}
use ni_fat.Hamming.Buffer.{le32, packed}
use ni_fat.Disk.Sectors.{at_rest, sectors_past_end}
use ni_fat.Threading.{null_lock}
use ni_fat.Errors.Alone.{held_lock, take_errors_lock-at_rest}
use ni_fat.Errors.{errors_sector, write_error_copy, write_error_copies, write_error, register_error}

module _ {S : Type 0} (d : Driver S) (fi : FatData) (c : Core S) (e m f a : ℕ) where
  write_error_copies_past :
      (index code n i : ℕ)
      → c.sector_size < u32 (index * 8)
      → write_error_copies d fi index code n i true (at_rest c e m f a) ≡ (true, at_rest c e m f a)
  unfolding write_error_copies write_error_copy
  write_error_copies_past index code zero i h = refl
  write_error_copies_past index code (suc n) i h =
      let past =
        sectors_past_end d c e m f a (errors_sector i fi.total_sectors) (u32 (index * 8))
          (packed (le32 code)) [] 8 1 (omega arith) in
      rw past.0 (write_error_copies_past index code n (i + 1) h)

  write_error_past :
      (index code : ℕ)
      → c.sector_size < u32 (index * 8)
      → write_error d fi index code (at_rest c e m f a) ≡ (true, at_rest c e m f a)
  unfolding write_error
  write_error_past index code h = write_error_copies_past index code fi.errors_count 0 h

-- At an index whose entry lies beyond the sector, registering any code returns the same and leaves
-- the same state and the same device as registering any other: the code is not stored.
pub register_error_past_sector :
    {S : Type 0} (d : Driver S) (fi : FatData) (c : Core S) (code other : ℕ)
    → c.sector_size < u32 (c.errors.current * 8)
    → register_error d fi code (ready c) ≡ register_error d fi other (ready c)
unfolding register_error
register_error_past_sector d fi c code other h =
    let N : ℕ = null_lock in
    let past = write_error_past d fi c held_lock N N N c.errors.current in
    rw (take_errors_lock-at_rest c N N N) (rw (past code h, past other h))
