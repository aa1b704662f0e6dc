-- ===== src/Layout.antt =====
-- The packed structs that metadata is stored in: `directory_entry_t` of include/nft32/entry.h, which
-- src/journal.c knows as `unsqueezed_entry_t`, in the build without times; `squeezed_entry_t` and
-- `journal_entry_t` of include/nft32/journal.h. Each as a record, and as the bytes it has in memory.
pub mod Roundtrip
use ni_fat.Base.{ℕ, List, [], ◌∷◌, ◌++◌, get_or, take, drop, replicate}
use ni_fat.Hamming.Buffer.{le32, from_le32}

-- a file name is its eleven bytes
pub record DirectoryEntry : Type 0 where
  pub file_name : List ℕ
  pub name_hash : ℕ
  pub attributes : ℕ
  pub rca : ℕ
  pub dca : ℕ
  pub file_size : ℕ
  pub checksum : ℕ

pub record SqueezedEntry : Type 0 where
  pub file_name : List ℕ
  pub attributes : ℕ
  pub rca : ℕ
  pub dca : ℕ
  pub file_size : ℕ

pub record JournalEntry : Type 0 where
  pub op : ℕ
  pub ca : ℕ
  pub offset : ℕ
  pub entry : SqueezedEntry
  pub checksum : ℕ

-- 32 bytes
unfoldable pub directory_bytes : DirectoryEntry → List ℕ
directory_bytes e =
    e.file_name
    ++ (le32 e.name_hash
        ++ (e.attributes ∷ (le32 e.rca ++ (le32 e.dca ++ (le32 e.file_size ++ le32 e.checksum)))))

unfoldable pub directory_of : List ℕ → DirectoryEntry
directory_of b = record {
  file_name = take 11 b;
  name_hash = from_le32 (drop 11 b);
  attributes = get_or b 15 0;
  rca = from_le32 (drop 16 b);
  dca = from_le32 (drop 20 b);
  file_size = from_le32 (drop 24 b);
  checksum = from_le32 (drop 28 b);
}

-- 24 bytes
unfoldable pub squeezed_bytes : SqueezedEntry → List ℕ
squeezed_bytes e = e.file_name ++ (e.attributes ∷ (le32 e.rca ++ (le32 e.dca ++ le32 e.file_size)))

unfoldable pub squeezed_of : List ℕ → SqueezedEntry
squeezed_of b = record {
  file_name = take 11 b;
  attributes = get_or b 11 0;
  rca = from_le32 (drop 12 b);
  dca = from_le32 (drop 16 b);
  file_size = from_le32 (drop 20 b);
}

-- 34 bytes
unfoldable pub journal_bytes : JournalEntry → List ℕ
journal_bytes j = j.op ∷ (le32 j.ca ++ (j.offset ∷ (squeezed_bytes j.entry ++ le32 j.checksum)))

unfoldable pub journal_of : List ℕ → JournalEntry
journal_of b = record {
  op = get_or b 0 0;
  ca = from_le32 (drop 1 b);
  offset = get_or b 5 0;
  entry = squeezed_of (drop 6 b);
  checksum = from_le32 (drop 30 b);
}

-- `= { 0 }`
abbrev pub blank_squeezed : SqueezedEntry
blank_squeezed = record {
  file_name = replicate 11 0;
  attributes = 0;
  rca = 0;
  dca = 0;
  file_size = 0;
}

abbrev pub blank_journal : JournalEntry
blank_journal = record { op = 0; ca = 0; offset = 0; entry = blank_squeezed; checksum = 0 }
