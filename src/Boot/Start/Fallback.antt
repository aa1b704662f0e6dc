-- ===== src/Boot/Start/Fallback.antt =====
-- nifat32.c: NIFAT32_init goes on to the next copy of the boot sector, for a thread that runs alone, on
-- a volume without journals and without an error ring.
use ni_fat.Base.{
  ℕ, zero, suc, ◌+◌, ◌<◌, ◌≤◌, ◌==◌, leb, ◌≡◌, ◌≢◌, refl, sym, arith, true, false, List, some,
  ne→==, u8, subst,
}
use ni_fat.State.{FatData, Core, Driver, ready}
use ni_fat.Threading.{
  null_lock, lock_pack, thread_num, require_write, release_write, attempts, try_write,
  try_release_write,
}
use ni_fat.Disk.{setup, read_sector, read_lock, overwrite}
use ni_fat.Disk.Areas.{lock_area-idle, unlock-lock_area}
use ni_fat.Errors.{
  register_error, take_errors_lock, drop_errors_lock, set_errors, advance, write_error,
  write_error_copies, dump_info,
}
use ni_fat.Layout.{JournalEntry}
use ni_fat.Content.{ctable_init}
use ni_fat.Api.Defs.{take_api_lock, drop_api_lock}
use ni_fat.Boot.Sector.{BootSector, is_valid_boot}
use ni_fat.Boot.{
  checksum_check_error, boot_sector, Params, Instance, info_of, decode_boot, setup_errors, recover,
  with_state, leave, Outcome,
}
use ni_fat.Boot.Start.{mount, read_boot, check_boot, init}

-- the instance before a call: no lock is guarded
abbrev pub waiting : {S T : Type 0} → Instance S T → Core S → Instance S T
waiting n c =
    let w = n.api.world in
    record n {
      api = record {
        lock = null_lock;
        world = record w { logged = record w.logged { state = ready c } };
      };
    }

-- the parameters without journals and errors, with callbacks
abbrev pub plain : Params → Params
plain p = record p { ec = 0; jc = 0; callbacks = true }

-- `_fs_data` without an error ring
abbrev pub quiet_info : FatData → FatData
quiet_info fi = record fi { errors_count = 0 }

register_error-none :
    {S : Type 0} (d : Driver S) (fi : FatData) (code : ℕ) (c : Core S)
    → (register_error d (quiet_info fi) code (ready c)).1
      ≡ ready (record c { errors = advance (quiet_info fi) c.errors })
unfolding register_error take_errors_lock drop_errors_lock set_errors write_error write_error_copies
    dump_info require_write release_write attempts try_write try_release_write
register_error-none d fi code c = refl

read_sector-idle :
    {S : Type 0} (d : Driver S) (c : Core S) (sa : ℕ) (buffer : List ℕ) (size : ℕ)
    → read_sector d sa buffer size (ready c)
      ≡ let r = d.read_sector c.store sa 0 size in ((r.0, overwrite buffer r.1), ready c)
unfolding read_sector
read_sector-idle d c sa buffer size =
    rw
      (
        lock_area-idle sa 1 read_lock null_lock null_lock null_lock null_lock,
        unlock-lock_area sa 1 read_lock null_lock null_lock null_lock null_lock,
      )
      refl

-- what is read of copy `i`, and the boot sector that this is
abbrev pub sector_read : {S : Type 0} → Driver S → Params → S → ℕ → ℕ × List ℕ
sector_read d p t i = d.read_sector t (boot_sector i p.ts) 0 p.sector_size

abbrev pub sector_found : {S : Type 0} → Driver S → List ℕ → Params → S → ℕ → BootSector
sector_found d junk p t i = decode_boot (overwrite junk (sector_read d p t i).1)

-- the core after a copy was read, and after it was refused
abbrev pub sized : {S : Type 0} → Params → Core S → Core S
sized p c = record c { sector_size = p.sector_size }

abbrev pub refused : {S : Type 0} → Params → FatData → Core S → Core S
refused p fi c = record c { sector_size = p.sector_size; errors = advance (quiet_info fi) c.errors }

abbrev pub with_copies : {S T : Type 0} → Params → Instance S T → Instance S T
with_copies p n = record n { info = quiet_info n.info; bs_count = p.bs_count }

abbrev pub next_copy : Params → Params
next_copy p = record p { bs_num = u8 (p.bs_num + 1) }

abbrev guarded : {S T : Type 0} → Instance S T → Instance S T
guarded n = record n { api = record n.api { lock = lock_pack 0 true thread_num } }

module _ {S T : Type 0} (d : Driver S) (residue : ℕ → ℕ) (places : ℕ → JournalEntry) (rounds : ℕ)
    (junk : List ℕ) where
  read_boot-reads :
      (p : Params) (n : Instance S T) (c : Core S)
      → leb p.bs_count p.bs_num ≡ false
      → (p.sector_size == 0) ≡ false
      → ((sector_read d p c.store p.bs_num).0 == 0) ≡ false
      → read_boot d residue places rounds junk (plain p) (guarded (waiting n c)) ≡ (
        some (
          overwrite junk (sector_read d p c.store p.bs_num).1,
          guarded (waiting (with_copies p n) (sized p c)),
        ),
        guarded (waiting n c),
      )
  unfolding read_boot setup setup_errors with_state
  read_boot-reads p n c more sized_ok fine =
      rw (more, sized_ok)
        (rw (read_sector-idle d (sized p c) (boot_sector p.bs_num p.ts) junk p.sector_size)
          (rw fine refl))

  init-refused :
      (fuel : ℕ) (p : Params) (n : Instance S T) (c : Core S)
      → leb p.bs_count p.bs_num ≡ false
      → (p.sector_size == 0) ≡ false
      → ((sector_read d p c.store p.bs_num).0 == 0) ≡ false
      → is_valid_boot (sector_found d junk p c.store p.bs_num) ≡ false
      → init d residue places rounds junk (suc fuel) (plain p) (waiting n c)
        ≡ init d residue places rounds junk fuel
            (plain (next_copy p))
            (waiting (with_copies p n) (refused p n.info c))
  unfolding init check_boot take_api_lock require_write attempts try_write with_state leave
      drop_api_lock release_write try_release_write
  init-refused fuel p n c more sized_ok fine bad = rw (read_boot-reads p n c more sized_ok fine) (
      rw (bad, check_boot)
        (rw (register_error-none d n.info checksum_check_error (sized p c)) refl))

  init-mounted :
      (fuel : ℕ) (p : Params) (n : Instance S T) (c : Core S)
      → leb p.bs_count p.bs_num ≡ false
      → (p.sector_size == 0) ≡ false
      → ((sector_read d p c.store p.bs_num).0 == 0) ≡ false
      → is_valid_boot (sector_found d junk p c.store p.bs_num) ≡ true
      → let b = sector_found d junk p c.store p.bs_num in
        (n' : Instance S T) × (init d residue places rounds junk (suc fuel) (plain p) (waiting n c)
          ≡ some (true, n'))
        × (n'.info ≡ info_of 0 b (quiet_info n.info))
        × (n'.fat_size ≡ b.ext.table_size_32)
        × (n'.api.lock ≡ null_lock)
        × (n'.api.world.table ≡ ctable_init n.api.world.table)
  unfolding init check_boot take_api_lock require_write attempts try_write mount leave recover
      drop_api_lock release_write try_release_write info_of
  init-mounted fuel p n c more sized_ok fine good =
      rw (read_boot-reads p n c more sized_ok fine)
        (rw (good, check_boot) (_, refl, refl, refl, refl, refl))

  -- What a call answers that mounts the volume of a boot sector: the geometry of the sector, an empty
  -- table of open content, and the lock free again.
  abbrev pub Mounts : Instance S T → BootSector → Outcome S T → Type 0
  Mounts n b o =
      (n' : Instance S T) × (o ≡ some (true, n'))
      × (n'.info ≡ info_of 0 b (quiet_info n.info))
      × (n'.fat_size ≡ b.ext.table_size_32)
      × (n'.api.lock ≡ null_lock)
      × (n'.api.world.table ≡ ctable_init n.api.world.table)

  -- Where the copies of the boot sector from `bs_num` on can be read, and copy `q` is the first of them
  -- that is correct, NIFAT32_init, called with as many calls of itself left as there are copies that
  -- are not correct, or more, mounts the volume of copy `q`, on a volume that has neither journals nor
  -- an error ring. Both callbacks are given, a sector has a byte at least, and the number of copies is
  -- a byte.
  pub init-Mounts :
      (i fuel q : ℕ) (p : Params) (n : Instance S T) (c : Core S)
      → i < fuel
      → p.bs_num + i ≡ q
      → q < p.bs_count
      → p.bs_count < 256
      → p.sector_size ≢ 0
      → ((k : ℕ) → p.bs_num ≤ k → k ≤ q → (sector_read d p c.store k).0 ≢ 0)
      → ((k : ℕ) → p.bs_num ≤ k → k < q → is_valid_boot (sector_found d junk p c.store k) ≡ false)
      → is_valid_boot (sector_found d junk p c.store q) ≡ true
      → Mounts n
          (sector_found d junk p c.store q)
          (init d residue places rounds junk fuel (plain p) (waiting n c))
  init-Mounts i zero q p n c enough at more small size fine bad good = absurd (omega arith)
  init-Mounts zero (suc fuel) q p n c enough at more small size fine bad good =
      let here : p.bs_num ≡ q = omega (arith, at) in
      subst
        (λ (k : ℕ).
          Mounts n (sector_found d junk p c.store k)
            (init d residue places rounds junk (suc fuel) (plain p) (waiting n c)))
        here
        (init-mounted fuel p n c (ground arith) (ne→== size)
          (ne→== (fine p.bs_num (omega arith) (omega arith)))
          (subst (λ (k : ℕ). is_valid_boot (sector_found d junk p c.store k) ≡ true) (sym here)
            good))
  init-Mounts (suc i) (suc fuel) q p n c enough at more small size fine bad good =
      let next : u8 (p.bs_num + 1) ≡ p.bs_num + 1 = omega arith in
      rw
        (init-refused fuel p n c (ground arith) (ne→== size)
          (ne→== (fine p.bs_num (omega arith) (omega arith)))
          (bad p.bs_num (omega arith) (omega arith)))
        (init-Mounts i fuel q (next_copy p) (with_copies p n) (refused p n.info c) (omega arith)
          (omega (arith, next, at)) more small size (λ k h. fine k (omega (arith, next, h)))
          (λ k h. bad k (omega (arith, next, h))) good)
