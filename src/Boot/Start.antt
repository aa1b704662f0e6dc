-- ===== src/Boot/Start.antt =====
-- nifat32.c, NIFAT32_init: it reads a boot sector, goes on to the next copy when that one is not
-- correct, and sets the file system up.
pub mod Fallback
use ni_fat.Base.{
  ℕ, zero, suc, ◌+◌, ◌==◌, leb, if◌then◌else◌, Bool, true, false, not, List, Option, none, some, u8,
}
use ni_fat.State.{FatData, State, Driver}
use ni_fat.Disk.{setup, read_sector}
use ni_fat.Errors.{register_error}
use ni_fat.Layout.{JournalEntry}
use ni_fat.Content.{ctable_init}
use ni_fat.Api.Defs.{take_api_lock}
use ni_fat.Boot.Sector.{BootSector, is_valid_boot}
use ni_fat.Boot.{
  checksum_check_error, sector_read_error, boot_sector, Params, Instance, info_of, decode_boot,
  setup_errors, mount_state, recover, Outcome, with_state, leave,
}

module _ {S T : Type 0} (d : Driver S) (residue : ℕ → ℕ) (places : ℕ → JournalEntry) (rounds : ℕ)
    (junk : List ℕ) where
  -- the rest of `NIFAT32_init`, with a boot sector that is correct
  unfoldable pub mount : Params → BootSector → List ℕ → Instance S T → State S → Outcome S T
  mount p b sector n s =
      let fi = info_of p.jc b n.info in
      let a = n.api in
      let w = a.world in
      elim (recover d residue places rounds fi
        (record w.logged { state = mount_state d p fi sector s })) [
          | none ↦ none
          | some l ↦ some (
            true,
            leave (record n {
              api = record a { world = record { logged = l; table = ctable_init w.table } };
              info = fi;
              fat_size = b.ext.table_size_32;
            }),
          )
        ]

  -- `NIFAT32_init` up to the checksums: the boot sector that was read, or what it answers
  unfoldable pub read_boot : Params → Instance S T → Option (List ℕ × Instance S T) × Instance S T
  read_boot p n =
      let (placed, s1) = setup p.callbacks p.sector_size n.api.world.logged.state in
      let fi = record n.info { errors_count = p.ec } in
      let n1 = record n { info = fi } in
      let (counted, s2) = setup_errors d p.ec fi s1 in
      let n2 = record n1 { bs_count = p.bs_count } in
      let ((status, sector), s3) =
        read_sector d (boot_sector p.bs_num p.ts) junk p.sector_size s2 in
      if leb p.bs_count p.bs_num
      then (none, n)
      else if not placed
      then (none, with_state n s1)
      else if not counted
      then (none, with_state n1 s2)
      else if status == 0
      then (none, with_state n2 (register_error d fi sector_read_error s3).1)
      else (some (sector, with_state n2 s3), n)

  -- with the lock held: a boot sector that is not correct makes the function call itself
  unfoldable pub check_boot :
      (Instance S T → Outcome S T)
      → Params
      → Option (List ℕ × Instance S T) × Instance S T
      → Outcome S T
  check_boot retry p (none, n) = some (false, leave n)
  check_boot retry p (some (sector, n), n') =
      let s = n.api.world.logged.state in
      let b = decode_boot sector in
      elim (is_valid_boot b) [
        | true ↦ mount p b sector n s
        | false ↦ retry (leave (with_state n (register_error d n.info checksum_check_error s).1))
      ]

  -- `NIFAT32_init`, in at most `fuel` calls of itself
  unfoldable pub init : ℕ → Params → Instance S T → Outcome S T
  init zero p n = none
  init (suc fuel) p n =
      let (held, a) = take_api_lock n.api in
      let locked = record n { api = a } in
      elim held [
        | false ↦ some (false, locked)
        | true ↦
            check_boot (init fuel (record p { bs_num = u8 (p.bs_num + 1) })) p (read_boot p locked)
      ]
