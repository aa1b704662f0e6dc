-- ===== src/Boot/Decoded.antt =====
-- nifat32.c: what NIFAT32_repair_bootsectors writes is what NIFAT32_init reads.
use ni_fat.Base.{
  ℕ, ◌<◌, ◌≡◌, refl, sym, ap, ◌∙◌, arith, true, ==_iff, List, ◌++◌, length, take, u8, u16,
}
use ni_fat.State.{FatData}
use ni_fat.Checksum.{murmur3, murmur3-lt}
use ni_fat.Hamming.Correct.{IsBytes}
use ni_fat.Hamming.Buffer.{le32, from_le32, packed, unpacked}
use ni_fat.Hamming.Buffer.Roundtrip.{unpacked-packed, length-packed}
use ni_fat.Disk.Transfer.{take-append}
use ni_fat.Boot.Sector.{
  le16, from_le16, BootSector, ext_bytes, ext_of, boot_bytes, boot_of, seal_ext, seal_boot,
  is_valid_boot,
}
use ni_fat.Boot.{
  info_of, total_clusters, data_sectors, root_dir_sectors, bare_boot, current_boot, encoded_boot,
  decode_boot,
}

-- A sector that begins with the coded bytes of a boot sector decodes to it.
pub decode_boot-packed :
    (b : BootSector) (sector : List ℕ)
    → boot_of (boot_bytes b) ≡ b
    → IsBytes (boot_bytes b)
    → take 162 sector ≡ packed (boot_bytes b)
    → decode_boot sector ≡ b
unfolding decode_boot
decode_boot-packed b sector back small same =
    ap (λ (e : List ℕ). boot_of (unpacked e)) same
    ∙ ap boot_of (unpacked-packed (boot_bytes b) small)
    ∙ back

-- the boot sector that is written, with its checksums
boot_with : FatData → ℕ → ℕ → ℕ → BootSector
unfolding bare_boot
boot_with fi fat_size ext_sum sum =
    let bare : BootSector = bare_boot fi fat_size in
    record bare { ext = record bare.ext { checksum = ext_sum }; checksum = sum }

-- the fields of `_fs_data` fit those of a boot sector
pub record IsInfo (fi : FatData) : Type 0 where
  pub sector_short : fi.bytes_per_sector < 0x10000
  pub cluster_byte : fi.sectors_per_cluster < 0x100
  pub padd_short : fi.sectors_padd < 0x10000
  pub count_byte : fi.fat_count < 0x100
  pub total_word : fi.total_sectors < 0x100000000
  pub root_word : fi.ext_root_cluster < 0x100000000

module _ (fi : FatData) (fat_size x s : ℕ) (h : IsInfo fi) (size : fat_size < 0x100000000)
    (p : x < 0x100000000) (q : s < 0x100000000) where
  boot_of-boot_bytes : boot_of (boot_bytes (boot_with fi fat_size x s)) ≡ boot_with fi fat_size x s
  unfolding boot_of boot_bytes boot_with bare_boot ext_of ext_bytes le16 le32 from_le16 from_le32
  boot_of-boot_bytes = ground (arith, h)

  length-boot_bytes : length (boot_bytes (boot_with fi fat_size x s)) ≡ 81
  unfolding boot_bytes boot_with bare_boot ext_bytes le16 le32
  length-boot_bytes = refl

  boot_bytes-IsBytes : IsBytes (boot_bytes (boot_with fi fat_size x s))
  unfolding boot_bytes boot_with bare_boot ext_bytes le16 le32
  boot_bytes-IsBytes = omega arith

  decoded_with :
      (rest : List ℕ)
      → decode_boot (encoded_boot rest (boot_with fi fat_size x s)) ≡ boot_with fi fat_size x s
  unfolding encoded_boot
  decoded_with rest =
      let bytes = boot_bytes (boot_with fi fat_size x s) in
      let long : length (packed bytes) ≡ 162 =
        omega (arith, length-packed bytes, length-boot_bytes) in
      decode_boot-packed (boot_with fi fat_size x s) (packed bytes ++ rest) boot_of-boot_bytes
        boot_bytes-IsBytes
        (ap (λ (k : ℕ). take k (packed bytes ++ rest)) (sym long) ∙ take-append (packed bytes) rest)

-- the sums of the sector that is made
ext_sum_of : FatData → ℕ → ℕ
unfolding bare_boot
ext_sum_of fi fat_size = murmur3 (ext_bytes (bare_boot fi fat_size).ext) 0

sum_of : FatData → ℕ → ℕ
sum_of fi fat_size = murmur3 (boot_bytes (boot_with fi fat_size (ext_sum_of fi fat_size) 0)) 0

current_boot-with :
    (fi : FatData) (fat_size : ℕ)
    → current_boot fi fat_size ≡ boot_with fi fat_size (ext_sum_of fi fat_size) (sum_of fi fat_size)
unfolding current_boot seal_boot seal_ext boot_with bare_boot ext_sum_of sum_of
current_boot-with fi fat_size = refl

pub decoded_current :
    (fi : FatData) (fat_size : ℕ) (rest : List ℕ)
    → IsInfo fi
    → fat_size < 0x100000000
    → decode_boot (encoded_boot rest (current_boot fi fat_size)) ≡ current_boot fi fat_size
unfolding ext_sum_of sum_of
decoded_current fi fat_size rest h size = rw (current_boot-with fi fat_size) (
    decoded_with fi fat_size (ext_sum_of fi fat_size) (sum_of fi fat_size) h size (murmur3-lt _ 0)
      (murmur3-lt _ 0) rest)

-- a sealed sector passes the test of its checksums
pub is_valid_boot-seal_boot : (b : BootSector) → is_valid_boot (seal_boot b) ≡ true
unfolding is_valid_boot seal_boot seal_ext
is_valid_boot-seal_boot b =
    rw
      (
        (==_iff (seal_boot b).checksum (seal_boot b).checksum).1 refl,
        (==_iff (seal_boot b).ext.checksum (seal_boot b).ext.checksum).1 refl,
      )
      refl

-- the fields of a boot sector that `_fs_data` is made of fit their types
pub record IsBoot (b : BootSector) : Type 0 where
  pub sector_short : b.bytes_per_sector < 0x10000
  pub cluster_byte : b.sectors_per_cluster < 0x100
  pub padd_short : b.reserved_sector_count < 0x10000
  pub count_byte : b.table_count < 0x100
  pub total_word : b.total_sectors_32 < 0x100000000
  pub root_word : b.ext.root_cluster < 0x100000000
  pub size_word : b.ext.table_size_32 < 0x100000000

info_of-IsInfo : (jc : ℕ) (b : BootSector) (fi : FatData) → IsBoot b → IsInfo (info_of jc b fi)
unfolding info_of
info_of-IsInfo jc b fi h = omega arith

-- the sector that is made has the geometry that it is made from
info_of-again :
    (jc : ℕ) (b : BootSector) (fi : FatData)
    → IsBoot b
    → b.root_entry_count ≡ 0
    → info_of jc (current_boot (info_of jc b fi) b.ext.table_size_32) fi ≡ info_of jc b fi
unfolding info_of total_clusters data_sectors root_dir_sectors current_boot seal_boot seal_ext
    bare_boot
info_of-again jc b fi h no_root =
    let made : BootSector = current_boot (info_of jc b fi) b.ext.table_size_32 in
    let sector : u16 b.bytes_per_sector ≡ b.bytes_per_sector = omega (arith, h.sector_short) in
    let cluster : u8 b.sectors_per_cluster ≡ b.sectors_per_cluster =
      omega (arith, h.cluster_byte) in
    let padd : u16 b.reserved_sector_count ≡ b.reserved_sector_count =
      omega (arith, h.padd_short) in
    λ i.
      info_of jc
        (record made {
          bytes_per_sector = sector i;
          sectors_per_cluster = cluster i;
          reserved_sector_count = padd i;
          root_entry_count = sym no_root i;
        })
        fi

-- Once a volume is mounted from a boot sector without root entries whose fields fit their types, what
-- NIFAT32_repair_bootsectors writes, whatever follows its 162 bytes, decodes to a boot sector that
-- passes the test of the checksums and gives the very same `_fs_data`.
pub info_of-current_boot :
    (jc : ℕ) (b : BootSector) (fi : FatData) (rest : List ℕ)
    → IsBoot b
    → b.root_entry_count ≡ 0
    → let mounted = info_of jc b fi in
      let again = decode_boot (encoded_boot rest (current_boot mounted b.ext.table_size_32)) in
      (is_valid_boot again ≡ true) × (info_of jc again fi ≡ mounted)
info_of-current_boot jc b fi rest h no_root =
    let fit = info_of-IsInfo jc b fi h in
    rw (decoded_current (info_of jc b fi) b.ext.table_size_32 rest fit h.size_word) (
      unfold current_boot in
          is_valid_boot-seal_boot (bare_boot (info_of jc b fi) b.ext.table_size_32),
      info_of-again jc b fi h no_root,
    )
