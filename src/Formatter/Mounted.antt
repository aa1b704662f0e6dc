-- ===== src/Formatter/Mounted.antt =====
-- formatter/nifat32formatter.c and nifat32.c: a volume that the formatter made is mounted from any of
-- the copies of its boot sector.
use ni_fat.Base.{
  ℕ, ◌+◌, ◌-◌, ◌*◌, ◌<◌, ◌≤◌, ◌≡◌, ◌≢◌, sym, ap, subst, ◌∙◌, arith, Bool, true, List, Option, some,
  u32,
}
use ni_fat.State.{Core}
use ni_fat.Hamming.Buffer.{packed}
use ni_fat.Layout.{JournalEntry}
use ni_fat.Threading.{null_lock}
use ni_fat.Boot.Sector.{BootSector, boot_bytes}
use ni_fat.Boot.{Params, Instance, boot_sector, info_of}
use ni_fat.Boot.Decoded.{is_valid_boot-seal_boot}
use ni_fat.Boot.Start.{init}
use ni_fat.Boot.Start.Fallback.{plain, waiting, quiet_info, sector_read, sector_found, init-Mounts}
use ni_fat.Unix.{disk_io, mock_sector_read}
use ni_fat.Formatter.Copies.{IsFile, put_all-stores, read-copy}
use ni_fat.Formatter.Options.{Opt}
use ni_fat.Formatter.Files.{Posix}
use ni_fat.Formatter.{bare_formatted, formatted_boot, write_bs}
use ni_fat.Formatter.Boots.{
  Fits, Geometry, length-formatted, size-formatted, decode_boot-formatted, info_of-formatted,
}

-- the parameters of a mount from copy `k`
abbrev pub mount_params : Opt → ℕ → ℕ → Params → Params
mount_params o ts k p = record p { bs_num = k; bs_count = o.bsbc; ts = ts; sector_size = 512 }

-- What a mount gives: the geometry that the formatter computed, and the lock free again.
abbrev pub HasGeometry : {S T : Type 0} → Opt → ℕ → ℕ → Option (Bool × Instance S T) → Type 0
HasGeometry {S} {T} o ts fat_size r =
    (n' : Instance S T) × (r ≡ some (true, n'))
    × Geometry o ts fat_size n'.info
    × (n'.fat_size ≡ fat_size)
    × (n'.api.lock ≡ null_lock)

module _ {S : Type 0} (f : Posix S) (file : IsFile f) where
  copy-readable :
      (p : Params) (o : Opt) (ts k : ℕ) (t : S) (i : ℕ)
      → (sector_read (disk_io f 512) (mount_params o ts k p) t i).0 ≢ 0
  unfolding mock_sector_read
  copy-readable p o ts k t i =
      rw (file.whole t (u32 (boot_sector i ts * 512 + 0)) 512) (omega arith)

  copy-decoded :
      (o : Opt) (ts fat_size k : ℕ) (t : S) (p : Params) (c : Core S) (junk : List ℕ)
      → Fits o ts fat_size
      → (write_bs f o true ts fat_size t).0 ≡ true
      → c.store ≡ (write_bs f o true ts fat_size t).1
      → o.b_bsbc ≤ k
      → k < o.bsbc
      → sector_found (disk_io f 512) junk (mount_params o ts k p) c.store k
        ≡ formatted_boot o ts fat_size
  unfolding mock_sector_read write_bs
  copy-decoded o ts fat_size k t p c junk fits ok store from to =
      let bytes = packed (boot_bytes (formatted_boot o ts fat_size)) in
      let long = length-formatted o ts fat_size in
      let large : 2 < ts = omega (arith, fits.room) in
      decode_boot-formatted o ts fat_size _ fits (
        read-copy f file ts bytes long large fits.small k c.store junk (
          rw store (
            put_all-stores f file ts bytes long large fits.small (o.bsbc - o.b_bsbc) o.b_bsbc k t
              from (omega arith) ok)))

  module _ {T : Type 0} (residue : ℕ → ℕ) (places : ℕ → JournalEntry) (rounds : ℕ)
      (junk : List ℕ) where
    -- After _write_bs returned 1, NIFAT32_init, told to read any of the copies that it wrote, mounts
    -- the volume at once with the clusters, the first data sector, the tables and the root cluster that
    -- the formatter computed. The counts fit their fields and the tables leave room for data; the
    -- volume is a file that keeps what is written, which the callbacks of unix_nifat32.c read, and has
    -- at most 4 GB; it is mounted without journals and errors, by a thread that runs alone.
    pub init-write_bs :
        (o : Opt) (ts fat_size k : ℕ) (t : S) (p : Params) (n : Instance S T) (c : Core S)
        → Fits o ts fat_size
        → (write_bs f o true ts fat_size t).0 ≡ true
        → c.store ≡ (write_bs f o true ts fat_size t).1
        → o.b_bsbc ≤ k
        → k < o.bsbc
        → o.bsbc < 256
        → HasGeometry o ts fat_size (
            init
              (disk_io f 512)
              residue
              places
              rounds
              junk
              1
              (plain (mount_params o ts k p))
              (waiting n c))
    init-write_bs o ts fat_size k t p n c fits ok store from to few =
        let q = mount_params o ts k p in
        let d = disk_io f 512 in
        let found = copy-decoded o ts fat_size k t p c junk fits ok store from to in
        let (n', run, info, size, lock, table) =
          init-Mounts d residue places rounds junk 0 1 k q n c (omega arith) (omega arith) to few
            (omega arith) (λ i above below. copy-readable p o ts k c.store i)
            (λ i above below. absurd (omega (arith, above, below)))
            (rw found
              (unfold formatted_boot in is_valid_boot-seal_boot (bare_formatted o ts fat_size))) in
        (
          n',
          run,
          subst (Geometry o ts fat_size)
              (sym (info ∙ ap (λ (b : BootSector). info_of 0 b (quiet_info n.info)) found))
              (info_of-formatted o ts fat_size 0 (quiet_info n.info) fits),
          size ∙ ap (λ (b : BootSector). b.ext.table_size_32) found ∙ size-formatted o ts fat_size,
          lock,
        )
