-- ===== src/Formatter/Boots.antt =====
-- formatter/nifat32formatter.c: the boot sector of `_write_bs`, as `NIFAT32_init` decodes it.
use ni_fat.Base.{
  ◌==◌, if◌then◌else◌, false, u8, ℕ, ◌+◌, ◌-◌, ◌*◌, ◌/◌, ◌<◌, ◌≤◌, ◌≡◌, refl, arith, ltb, lt→ltb,
  List, length, take, true, u32,
}
use ni_fat.State.{FatData}
use ni_fat.Checksum.{murmur3, murmur3-lt}
use ni_fat.Hamming.Correct.{IsBytes}
use ni_fat.Hamming.Buffer.{le32, from_le32, packed}
use ni_fat.Hamming.Buffer.Roundtrip.{length-packed}
use ni_fat.Boot.Sector.{
  le16, from_le16, BootSector, ext_bytes, ext_of, boot_bytes, boot_of, seal_ext, seal_boot,
}
use ni_fat.Boot.{
  decode_boot, info_of, total_clusters, data_sectors, root_dir_sectors, int_div, or_one,
}
use ni_fat.Boot.Decoded.{decode_boot-packed}
use ni_fat.Formatter.Options.{Opt}
use ni_fat.Formatter.{bare_formatted, formatted_boot, volume_clusters, sectors_left, data_start}

-- The counts fit the fields of a boot sector, the tables leave room for data, and the volume is one
-- whose bytes have offsets of 32 bits.
pub record Fits (o : Opt) (ts fat_size : ℕ) : Type 0 where
  pub some_sector : 0 < o.spc
  pub cluster_byte : o.spc < 0x100
  pub count_byte : o.fc < 0x100
  pub room : 32 + o.fc * fat_size < ts
  pub small : ts ≤ 0x800000
  pub size_word : fat_size < 0x100000000

-- the boot sector with its checksums
formatted_with : Opt → ℕ → ℕ → ℕ → ℕ → BootSector
unfolding bare_formatted
formatted_with o ts fat_size x s =
    let bare : BootSector = bare_formatted o ts fat_size in
    record bare { ext = record bare.ext { checksum = x }; checksum = s }

module _ (o : Opt) (ts fat_size x s : ℕ) (h : Fits o ts fat_size) (p : x < 0x100000000)
    (q : s < 0x100000000) where
  boot_of-formatted :
      boot_of (boot_bytes (formatted_with o ts fat_size x s)) ≡ formatted_with o ts fat_size x s
  unfolding boot_of boot_bytes formatted_with bare_formatted ext_of ext_bytes le16 le32 from_le16
      from_le32
  boot_of-formatted =
      let word : ts < 0x100000000 = omega (arith, h.small) in
      ground (arith, h.cluster_byte, h.count_byte, h.size_word, word)

  formatted-IsBytes : IsBytes (boot_bytes (formatted_with o ts fat_size x s))
  unfolding boot_bytes formatted_with bare_formatted ext_bytes le16 le32
  formatted-IsBytes = omega arith

pub length-formatted :
    (o : Opt) (ts fat_size : ℕ) → length (packed (boot_bytes (formatted_boot o ts fat_size))) ≡ 162
unfolding boot_bytes formatted_boot bare_formatted seal_boot seal_ext ext_bytes le16 le32
length-formatted o ts fat_size = length-packed (boot_bytes (formatted_boot o ts fat_size))

-- the sums of the sector
ext_sum_of : Opt → ℕ → ℕ → ℕ
unfolding bare_formatted
ext_sum_of o ts fat_size = murmur3 (ext_bytes (bare_formatted o ts fat_size).ext) 0

sum_of : Opt → ℕ → ℕ → ℕ
sum_of o ts fat_size =
    murmur3 (boot_bytes (formatted_with o ts fat_size (ext_sum_of o ts fat_size) 0)) 0

formatted_boot-with :
    (o : Opt) (ts fat_size : ℕ)
    → formatted_boot o ts fat_size
      ≡ formatted_with o ts fat_size (ext_sum_of o ts fat_size) (sum_of o ts fat_size)
unfolding formatted_boot seal_boot seal_ext formatted_with bare_formatted ext_sum_of sum_of
formatted_boot-with o ts fat_size = refl

-- A sector that begins with what `_write_bs` writes decodes to the boot sector that it made.
pub decode_boot-formatted :
    (o : Opt) (ts fat_size : ℕ) (sector : List ℕ)
    → Fits o ts fat_size
    → take 162 sector ≡ packed (boot_bytes (formatted_boot o ts fat_size))
    → decode_boot sector ≡ formatted_boot o ts fat_size
unfolding ext_sum_of sum_of
decode_boot-formatted o ts fat_size sector h = rw (formatted_boot-with o ts fat_size) λ same.
    decode_boot-packed _ sector
      (boot_of-formatted o ts fat_size _ _ h (murmur3-lt _ 0) (murmur3-lt _ 0))
      (formatted-IsBytes o ts fat_size _ _ h (murmur3-lt _ 0) (murmur3-lt _ 0)) same

pub size-formatted :
    (o : Opt) (ts fat_size : ℕ) → (formatted_boot o ts fat_size).ext.table_size_32 ≡ fat_size
unfolding formatted_boot bare_formatted seal_boot seal_ext
size-formatted o ts fat_size = refl

-- the geometry of a volume, as its formatter computed it
pub record Geometry (o : Opt) (ts fat_size : ℕ) (fi : FatData) : Type 0 where
  pub clusters : fi.total_clusters ≡ volume_clusters o ts fat_size
  pub start : fi.first_data_sector * 512 ≡ data_start o fat_size
  pub sectors : fi.total_sectors ≡ ts
  pub tables : fi.fat_count ≡ o.fc
  pub root : fi.ext_root_cluster ≡ 2
  pub cluster : fi.cluster_size ≡ 512 * o.spc
  pub padd : fi.sectors_padd ≡ 32

-- NIFAT32_init and the formatter agree on the clusters, for a volume with room for data
same_clusters :
    (ts used spc : ℕ)
    → 0 < spc
    → 32 + used < ts
    → ts ≤ 0x800000
    → let left = u32 (ts + 0x100000000 - u32 (32 + used + 0)) in
      (if left == 0 then ts / or_one spc else int_div left (or_one spc))
      ≡ u32 (u32 (ts + 0x100000000 - 32) + 0x100000000 - u32 used) / spc
unfolding int_div or_one
same_clusters ts used spc some_sector room small =
    let left : ℕ = ts - 32 - used in
    let e : u32 (ts + 0x100000000 - u32 (32 + used + 0)) ≡ left = omega arith in
    let f : u32 (u32 (ts + 0x100000000 - 32) + 0x100000000 - u32 used) ≡ left = omega arith in
    let g : (left == 0) ≡ false = ground arith in
    let k : (spc == 0) ≡ false = ground arith in
    let l : ltb left 0x80000000 ≡ true = lt→ltb left 0x80000000 (omega arith) in
    rw (e, f, g, k, l) refl

-- NIFAT32_init gets the geometry that the formatter computed.
pub info_of-formatted :
    (o : Opt) (ts fat_size jc : ℕ) (fi : FatData)
    → Fits o ts fat_size
    → Geometry o ts fat_size (info_of jc (formatted_boot o ts fat_size) fi)
unfolding info_of total_clusters data_sectors root_dir_sectors formatted_boot bare_formatted
    seal_boot seal_ext volume_clusters sectors_left data_start
info_of-formatted o ts fat_size jc fi h =
    let cluster : u8 o.spc ≡ o.spc = omega (arith, h.cluster_byte) in
    let count : u8 o.fc ≡ o.fc = omega (arith, h.count_byte) in
    record {
      clusters =
          rw (cluster, count)
            (same_clusters ts (o.fc * fat_size) o.spc h.some_sector h.room h.small);
      start = rw count (omega (arith, h.room, h.small));
      sectors = refl;
      tables = count;
      root = refl;
      cluster = rw cluster refl;
      padd = refl;
    }
