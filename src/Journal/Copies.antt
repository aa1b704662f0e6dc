-- ===== src/Journal/Copies.antt =====
-- src/journal.c: the transfers of an entry's copies, by a thread that runs alone.
use ni_fat.Base.{
  ℕ, zero, suc, ◌+◌, ◌*◌, ◌≤◌, ◌==◌, ◌≡◌, ◌≢◌, refl, ap, ◌∙◌, arith, Bool, false, ne→==,
}
use ni_fat.Base.{List, length, replicate, u32}
use ni_fat.State.{FatData, Core, Driver}
use ni_fat.Hamming.Buffer.{packed}
use ni_fat.Disk.Sectors.{at_rest}
use ni_fat.Disk.Single.{Holds, writeoff_once, readoff_once, overwrite_whole}
use ni_fat.Disk.Copies.{put_copies}
use ni_fat.Layout.{JournalEntry, journal_bytes}
use ni_fat.Layout.Roundtrip.{IsJournal, unpacked_journal, length-packed_journal}
use ni_fat.Journal.{
  journal_sector, write_journal_copy, write_journal_copies, write_journal, read_journal_copy,
}

module _ {S : Type 0} (d : Driver S) (fi : FatData) where
  -- a device on which every write succeeds
  abbrev pub TakesAll : Type 0
  TakesAll = (t : S) (sa off : ℕ) (bytes : List ℕ) → (d.write_sector t sa off bytes).0 ≢ 0

  abbrev pub sector : ℕ → ℕ
  sector n = journal_sector n fi.total_sectors

  abbrev pub put : ℕ → JournalEntry → ℕ → ℕ → S → Bool × S
  put index j = put_copies d (u32 (index * 68)) (packed (journal_bytes j)) sector

  -- copy `i` of the entry at the index is `j`
  abbrev pub Copy : Core S → ℕ → JournalEntry → ℕ → Type 0
  Copy c index j i =
      Holds d c.sector_size c.store (sector i) (u32 (index * 68)) (packed (journal_bytes j))

  module _ (e m f a index : ℕ) (j : JournalEntry) (proper : IsJournal j) where
    length-entry : length (packed (journal_bytes j)) ≡ 68
    length-entry = length-packed_journal j proper.inner.named

    write_journal_copy-at_rest :
        (c : Core S) (i : ℕ)
        → TakesAll
        → u32 (index * 68) + 68 ≤ c.sector_size
        → write_journal_copy d fi index j i (at_rest c e m f a)
          ≡ at_rest
              (record c {
                store =
                    (d.write_sector c.store
                      (sector i)
                      (u32 (index * 68))
                      (packed (journal_bytes j))).1;
              })
              e
              m
              f
              a
    unfolding write_journal_copy
    write_journal_copy-at_rest c i takes fits =
        let w : ℕ × S =
          d.write_sector c.store (sector i) (u32 (index * 68)) (packed (journal_bytes j)) in
        let done : (w.0 == 0) ≡ false = ne→== (takes _ _ _ _) in
        rw
          (writeoff_once d c e m f a (sector i) (u32 (index * 68)) (packed (journal_bytes j)) 68
            length-entry (omega arith) fits)
          (rw done refl)

    write_journal_copies-at_rest :
        (c : Core S) (n i : ℕ)
        → TakesAll
        → u32 (index * 68) + 68 ≤ c.sector_size
        → write_journal_copies d fi index j n i (at_rest c e m f a)
          ≡ at_rest (record c { store = (put index j n i c.store).1 }) e m f a
    unfolding write_journal_copies put_copies
    write_journal_copies-at_rest c zero i takes fits = refl
    write_journal_copies-at_rest c (suc n) i takes fits =
        let w : ℕ × S =
          d.write_sector c.store (sector i) (u32 (index * 68)) (packed (journal_bytes j)) in
        ap (write_journal_copies d fi index j n (i + 1)) (write_journal_copy-at_rest c i takes fits)
        ∙ write_journal_copies-at_rest (record c { store = w.1 }) n (i + 1) takes fits

    pub write_journal-at_rest :
        (c : Core S)
        → TakesAll
        → u32 (index * 68) + 68 ≤ c.sector_size
        → write_journal d fi index j (at_rest c e m f a)
          ≡ at_rest (record c { store = (put index j fi.journals_count 0 c.store).1 }) e m f a
    unfolding write_journal
    write_journal-at_rest c = write_journal_copies-at_rest c fi.journals_count 0

    pub read_journal_copy-at_rest :
        (c : Core S) (i : ℕ) (old : JournalEntry)
        → u32 (index * 68) + 68 ≤ c.sector_size
        → Copy c index j i
        → read_journal_copy d fi index i old (at_rest c e m f a) ≡ (j, at_rest c e m f a)
    unfolding read_journal_copy
    read_journal_copy-at_rest c i old fits held =
        rw
          (readoff_once d c e m f a (sector i) (u32 (index * 68)) (packed (journal_bytes j))
            (replicate 68 0) 68 length-entry (omega arith) fits held)
          (rw (overwrite_whole (replicate 68 0) (packed (journal_bytes j)) length-entry)
            (ap (λ (x : JournalEntry). (x, at_rest c e m f a)) (unpacked_journal j proper)))
