-- ===== src/Layout/Roundtrip.antt =====
-- The structs, laid out as bytes and read again.
use ni_fat.Base.{
  ℕ, zero, suc, ◌+◌, ◌<◌, ◌≡◌, sym, ap, ◌∙◌, arith, List, [], ◌∷◌, ◌++◌, length, length-append,
  take, drop, get_or,
}
use ni_fat.Hamming.Buffer.{le32, from_le32, packed, unpacked}
use ni_fat.Hamming.Buffer.Roundtrip.{le32-IsBytes, unpacked-packed, length-packed, from_le32-le32}
use ni_fat.Hamming.Correct.{IsBytes}
use ni_fat.Disk.Transfer.{take-append, drop-append, drop-drop}
use mathlib.Core.List.{append_assoc}
use ni_fat.Layout.{
  SqueezedEntry, JournalEntry, squeezed_bytes, squeezed_of, journal_bytes, journal_of,
}

-- what stands in front of, and behind, the bytes of a name
module _ {n : ℕ} (xs ys : List ℕ) (e : length xs ≡ n) where
  take_name : take n (xs ++ ys) ≡ xs
  take_name = ap (λ (k : ℕ). take k (xs ++ ys)) (sym e) ∙ take-append xs ys

  drop_name : (m k : ℕ) → k ≡ n + m → drop k (xs ++ ys) ≡ drop m ys
  drop_name m k h =
      ap (λ (i : ℕ). drop i (xs ++ ys)) (omega arith)
      ∙ sym (drop-drop m (length xs) (xs ++ ys))
      ∙ ap (drop m) (drop-append xs ys)

get_or-behind :
    (xs ys : List ℕ) (m k d : ℕ) → k ≡ length xs + m → get_or (xs ++ ys) k d ≡ get_or ys m d
get_or-behind [] ys m k d h = ap (λ (i : ℕ). get_or ys i d) (omega arith)
get_or-behind (x ∷ xs) ys m zero d h = absurd (omega arith)
get_or-behind (x ∷ xs) ys m (suc k) d h = get_or-behind xs ys m k d (omega arith)

-- the fields fit the types of the struct
pub record IsSqueezed (e : SqueezedEntry) : Type 0 where
  pub named : length e.file_name ≡ 11
  pub letters : IsBytes e.file_name
  pub byte : e.attributes < 256
  pub rca_word : e.rca < 0x100000000
  pub dca_word : e.dca < 0x100000000
  pub size_word : e.file_size < 0x100000000

pub record IsJournal (j : JournalEntry) : Type 0 where
  pub op_byte : j.op < 256
  pub ca_word : j.ca < 0x100000000
  pub offset_byte : j.offset < 256
  pub inner : IsSqueezed j.entry
  pub checksum_word : j.checksum < 0x100000000

module _ (e : SqueezedEntry) (h : IsSqueezed e) (rest : List ℕ) where
  squeezed_of-front : squeezed_of (squeezed_bytes e ++ rest) ≡ e
  unfolding squeezed_of squeezed_bytes le32 from_le32
  squeezed_of-front =
      let tail : List ℕ =
        (e.attributes ∷ (le32 e.rca ++ (le32 e.dca ++ le32 e.file_size))) ++ rest in
      let flat : squeezed_bytes e ++ rest ≡ e.file_name ++ tail = append_assoc e.file_name _ rest in
      let at : (m k : ℕ) → k ≡ 11 + m → drop k (e.file_name ++ tail) ≡ drop m tail =
        drop_name e.file_name tail h.named in
      let rca : from_le32 (drop 1 tail) ≡ e.rca = omega (arith, h.rca_word) in
      let dca : from_le32 (drop 5 tail) ≡ e.dca = omega (arith, h.dca_word) in
      let size : from_le32 (drop 9 tail) ≡ e.file_size = omega (arith, h.size_word) in
      ap squeezed_of flat ∙ λ i. record {
        file_name = take_name e.file_name tail h.named i;
        attributes = get_or-behind e.file_name tail 0 11 0 (omega (arith, h.named)) i;
        rca = (ap from_le32 (at 1 12 (omega arith)) ∙ rca) i;
        dca = (ap from_le32 (at 5 16 (omega arith)) ∙ dca) i;
        file_size = (ap from_le32 (at 9 20 (omega arith)) ∙ size) i;
      }

length-squeezed_bytes :
    (e : SqueezedEntry) → length e.file_name ≡ 11 → length (squeezed_bytes e) ≡ 24
unfolding squeezed_bytes le32
length-squeezed_bytes e h = omega (arith, length-append e.file_name _, h)

-- A journal entry whose fields fit their C types is read back from its 34 bytes.
pub journal_of-journal_bytes : (j : JournalEntry) → IsJournal j → journal_of (journal_bytes j) ≡ j
unfolding journal_of journal_bytes le32 from_le32
journal_of-journal_bytes j h =
    let inner : List ℕ = squeezed_bytes j.entry in
    let ca : from_le32 (drop 1 (journal_bytes j)) ≡ j.ca = omega (arith, h.ca_word) in
    let sum : from_le32 (le32 j.checksum) ≡ j.checksum =
      from_le32-le32 j.checksum h.checksum_word in
    let back : drop 24 (inner ++ le32 j.checksum) ≡ le32 j.checksum =
      drop_name inner (le32 j.checksum) (length-squeezed_bytes j.entry h.inner.named) 0 24
        (omega arith) in
    λ i. record {
      op = j.op;
      ca = ca i;
      offset = j.offset;
      entry = squeezed_of-front j.entry h.inner (le32 j.checksum) i;
      checksum = (ap from_le32 back ∙ sum) i;
    }

length-journal_bytes :
    (j : JournalEntry) → length j.entry.file_name ≡ 11 → length (journal_bytes j) ≡ 34
unfolding journal_bytes le32
length-journal_bytes j h = omega (
  arith,
  length-append (squeezed_bytes j.entry) (le32 j.checksum),
  length-squeezed_bytes j.entry h,
)

All-append : (xs ys : List ℕ) → IsBytes xs → IsBytes ys → IsBytes (xs ++ ys)
All-append [] ys h k = k
All-append (x ∷ xs) ys h k = (h.0, All-append xs ys h.1 k)

squeezed_bytes-IsBytes : (e : SqueezedEntry) → IsSqueezed e → IsBytes (squeezed_bytes e)
unfolding squeezed_bytes le32
squeezed_bytes-IsBytes e h = All-append e.file_name _ h.letters (omega (arith, h.byte))

journal_bytes-IsBytes : (j : JournalEntry) → IsJournal j → IsBytes (journal_bytes j)
unfolding journal_bytes le32
journal_bytes-IsBytes j h =
    let inner : IsBytes (squeezed_bytes j.entry ++ le32 j.checksum) =
      All-append (squeezed_bytes j.entry) (le32 j.checksum) (squeezed_bytes-IsBytes j.entry h.inner)
        (le32-IsBytes j.checksum) in
    (h.op_byte, (omega arith, (omega arith, (omega arith, (omega arith, (h.offset_byte, inner))))))

-- through the code and back
pub unpacked_journal :
    (j : JournalEntry) → IsJournal j → journal_of (unpacked (packed (journal_bytes j))) ≡ j
unpacked_journal j h =
    ap journal_of (unpacked-packed (journal_bytes j) (journal_bytes-IsBytes j h))
    ∙ journal_of-journal_bytes j h

pub length-packed_journal :
    (j : JournalEntry) → length j.entry.file_name ≡ 11 → length (packed (journal_bytes j)) ≡ 68
length-packed_journal j h = omega (arith, length-packed (journal_bytes j), length-journal_bytes j h)
