-- ===== src/Boot/Sector.antt =====
-- nifat32.h, the packed structs of a boot sector, as records and as the bytes that they have in memory;
-- and the checksums of nifat32.c.
use ni_fat.Base.{ℕ, ◌+◌, ◌*◌, ◌/◌, ◌%◌, ◌==◌, Bool, ◌&&◌, List, [], ◌∷◌, ◌++◌, get_or, take, drop}
use ni_fat.Hamming.Buffer.{le32, from_le32}
use ni_fat.Checksum.{murmur3}

-- the bytes of an `unsigned short`
unfoldable pub le16 : ℕ → List ℕ
le16 n = n % 256 ∷ n / 0x100 % 256 ∷ []

unfoldable pub from_le16 : List ℕ → ℕ
from_le16 b = get_or b 0 0 + get_or b 1 0 * 0x100

-- `nifat32_ext32_bootsector_t`
pub record ExtSection : Type 0 where
  pub table_size_32 : ℕ
  pub extended_flags : ℕ
  pub fat_version : ℕ
  pub root_cluster : ℕ
  pub drive_number : ℕ
  pub boot_signature : ℕ
  pub volume_id : ℕ
  pub volume_label : List ℕ
  pub fat_type_label : List ℕ
  pub checksum : ℕ

-- `nifat32_bootsector_t`
pub record BootSector : Type 0 where
  pub bootjmp : List ℕ
  pub oem_name : List ℕ
  pub bytes_per_sector : ℕ
  pub sectors_per_cluster : ℕ
  pub reserved_sector_count : ℕ
  pub table_count : ℕ
  pub root_entry_count : ℕ
  pub total_sectors_16 : ℕ
  pub media_type : ℕ
  pub table_size_16 : ℕ
  pub sectors_per_track : ℕ
  pub head_side_count : ℕ
  pub hidden_sector_count : ℕ
  pub total_sectors_32 : ℕ
  pub ext : ExtSection
  pub checksum : ℕ

-- 41 bytes
unfoldable pub ext_bytes : ExtSection → List ℕ
ext_bytes e =
    le32 e.table_size_32
    ++ (le16 e.extended_flags
        ++ (le16 e.fat_version
            ++ (le32 e.root_cluster
                ++ (e.drive_number
                    ∷ (e.boot_signature
                        ∷ (le32 e.volume_id
                            ++ (e.volume_label ++ (e.fat_type_label ++ le32 e.checksum))))))))

unfoldable pub ext_of : List ℕ → ExtSection
ext_of b = record {
  table_size_32 = from_le32 b;
  extended_flags = from_le16 (drop 4 b);
  fat_version = from_le16 (drop 6 b);
  root_cluster = from_le32 (drop 8 b);
  drive_number = get_or b 12 0;
  boot_signature = get_or b 13 0;
  volume_id = from_le32 (drop 14 b);
  volume_label = take 11 (drop 18 b);
  fat_type_label = take 8 (drop 29 b);
  checksum = from_le32 (drop 37 b);
}

-- 81 bytes
unfoldable pub boot_bytes : BootSector → List ℕ
boot_bytes b =
    b.bootjmp
    ++ (b.oem_name
        ++ (le16 b.bytes_per_sector
            ++ (b.sectors_per_cluster
                ∷ (le16 b.reserved_sector_count
                    ++ (b.table_count
                        ∷ (le16 b.root_entry_count
                            ++ (le16 b.total_sectors_16
                                ++ (b.media_type
                                    ∷ (le16 b.table_size_16
                                        ++ (le16 b.sectors_per_track
                                            ++ (le16 b.head_side_count
                                                ++ (le32 b.hidden_sector_count
                                                    ++ (le32 b.total_sectors_32
                                                        ++ (ext_bytes b.ext
                                                            ++ le32 b.checksum))))))))))))))

unfoldable pub boot_of : List ℕ → BootSector
boot_of b = record {
  bootjmp = take 3 b;
  oem_name = take 8 (drop 3 b);
  bytes_per_sector = from_le16 (drop 11 b);
  sectors_per_cluster = get_or b 13 0;
  reserved_sector_count = from_le16 (drop 14 b);
  table_count = get_or b 16 0;
  root_entry_count = from_le16 (drop 17 b);
  total_sectors_16 = from_le16 (drop 19 b);
  media_type = get_or b 21 0;
  table_size_16 = from_le16 (drop 22 b);
  sectors_per_track = from_le16 (drop 24 b);
  head_side_count = from_le16 (drop 26 b);
  hidden_sector_count = from_le32 (drop 28 b);
  total_sectors_32 = from_le32 (drop 32 b);
  ext = ext_of (drop 36 b);
  checksum = from_le32 (drop 77 b);
}

-- The sections with their checksums: the extended section's over its bytes with a checksum of 0, and
-- the sector's over its bytes with that one and a checksum of 0.
unfoldable pub seal_ext : ExtSection → ExtSection
seal_ext e =
    let bare : ExtSection = record e { checksum = 0 } in
    record e { checksum = murmur3 (ext_bytes bare) 0 }

unfoldable pub seal_boot : BootSector → BootSector
seal_boot b =
    let bare : BootSector = record b { ext = seal_ext b.ext; checksum = 0 } in
    record bare { checksum = murmur3 (boot_bytes bare) 0 }

-- the test of the checksums of `NIFAT32_init`
unfoldable pub is_valid_boot : BootSector → Bool
is_valid_boot b =
    let fresh = seal_boot b in fresh.checksum == b.checksum && fresh.ext.checksum == b.ext.checksum
