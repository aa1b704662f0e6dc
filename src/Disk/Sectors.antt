-- ===== src/Disk/Sectors.antt =====
-- src/disk.c: the transfers with their locks, called by a thread that runs alone.
use ni_fat.Base.{ℕ, ◌+◌, ◌*◌, ◌<◌, ◌≤◌, ◌≡◌, sym, ap, ◌∙◌, Bool, true, List, length}
use ni_fat.State.{Driver, IsDevice, Core, State, idle}
use ni_fat.Disk.{read_rounds, write_rounds, readoff_sectors, writeoff_sectors, overwrite}
use ni_fat.Disk.{read_lock, write_lock}
use ni_fat.Disk.Areas.{lock_area-idle, unlock-lock_area}
use ni_fat.Disk.Transfer.{read-write_rounds, rounds_past_end}

-- a state in which no transfer is in progress, whoever holds the other locks
abbrev pub at_rest : {S : Type 0} → Core S → ℕ → ℕ → ℕ → ℕ → State S
at_rest c e m f a = record { core = c; guard = idle e m f a }

module _ {S : Type 0} (d : Driver S) (c : Core S) (e m f a : ℕ) where
  pub readoff-at_rest :
      (sa off : ℕ) (buffer : List ℕ) (size sc : ℕ)
      → readoff_sectors d sa off buffer size sc (at_rest c e m f a)
        ≡ (read_rounds d c.store c.sector_size sc sa off size buffer, at_rest c e m f a)
  unfolding readoff_sectors
  readoff-at_rest sa off buffer size sc =
      rw (lock_area-idle sa sc read_lock e m f a, unlock-lock_area sa sc read_lock e m f a)

  pub writeoff-at_rest :
      (sa off : ℕ) (bytes : List ℕ) (size sc : ℕ)
      → writeoff_sectors d sa off bytes size sc (at_rest c e m f a)
        ≡ let w = write_rounds d c.store c.sector_size sc sa off size bytes in
          (w.0, at_rest (record c { store = w.1 }) e m f a)
  unfolding writeoff_sectors
  writeoff-at_rest sa off bytes size sc =
      rw (lock_area-idle sa sc write_lock e m f a, unlock-lock_area sa sc write_lock e m f a)

-- On a device that keeps what is written, for a run of `sc` sectors that holds the bytes and does
-- not wrap round the 32-bit addresses: if `DSK_writeoff_sectors` reports success, then
-- `DSK_readoff_sectors` of the same range succeeds with the same bytes at the buffer's start,
-- leaves the rest of the buffer and changes no state.
pub readoff-writeoff_sectors :
    {S : Type 0} (d : Driver S) (c : Core S) (e m f a sa off : ℕ) (bytes buffer : List ℕ) (sc : ℕ)
    → IsDevice d c.sector_size
    → sa + sc < 0x100000000
    → off + length bytes ≤ sc * c.sector_size
    → let (written, s') = writeoff_sectors d sa off bytes (length bytes) sc (at_rest c e m f a) in
      written ≡ true
      → readoff_sectors d sa off buffer (length bytes) sc s' ≡ ((true, overwrite buffer bytes), s')
readoff-writeoff_sectors {S} d c e m f a sa off bytes buffer sc dev h fits w =
    let t : S = (write_rounds d c.store c.sector_size sc sa off (length bytes) bytes).1 in
    let run = writeoff-at_rest d c e m f a sa off bytes (length bytes) sc in
    let read =
      read-write_rounds d c.sector_size dev sc c.store sa off bytes buffer h fits
        (sym (ap (λ (r : Bool × State S). r.0) run) ∙ w) in
    rw run (
      readoff-at_rest d (record c { store = t }) e m f a sa off buffer (length bytes) sc
      ∙ ap (λ (r : Bool × List ℕ). (r, at_rest (record c { store = t }) e m f a)) read)

-- A transfer whose offset lies beyond its `sc` sectors reports success, and moves no byte.
pub sectors_past_end :
    {S : Type 0} (d : Driver S) (c : Core S) (e m f a sa off : ℕ) (bytes buffer : List ℕ)
    (size sc : ℕ)
    → sc * c.sector_size < off
    → let s = at_rest c e m f a in
      (writeoff_sectors d sa off bytes size sc s ≡ (true, s))
      × (readoff_sectors d sa off buffer size sc s ≡ ((true, buffer), s))
sectors_past_end d c e m f a sa off bytes buffer size sc h =
    let past = rounds_past_end d c.sector_size sc c.store sa off size bytes buffer h in
    (
      rw (writeoff-at_rest d c e m f a sa off bytes size sc, past.0),
      rw (readoff-at_rest d c e m f a sa off buffer size sc, past.1),
    )
