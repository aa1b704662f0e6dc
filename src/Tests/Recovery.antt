-- ===== src/Tests/Recovery.antt =====
-- The journal on the device in memory.
use ni_fat.Base.{◌≡◌, ◌≢◌, refl, arith, true, none, [], ◌∷◌}
use ni_fat.State.{FatData, Core, ready}
use ni_fat.Threading.{null_lock, require_write, attempts, try_write}
use ni_fat.Hamming.{pack_memory, set_byte, encode}
use ni_fat.Hamming.Buffer.{le32, word_bytes, packed}
use ni_fat.Layout.{SqueezedEntry, JournalEntry, squeezed_bytes, journal_bytes, blank_journal}
use ni_fat.Layout.Roundtrip.{IsSqueezed, IsJournal}
use ni_fat.Journal.{
  Logged, capacity, journal_sector, read_journal, write_journal, restore_entry,
  restore_from_journal, take_journal_lock,
}
use ni_fat.Journal.Stored.{CopiesHold}
use ni_fat.Journal.Replay.{read_journal-write_journal, restore_entry_twice}
use ni_fat.Journal.Restore.{restore_from_journal-ends, restore_from_journal-stuck}
use ni_fat.Tests.Device.{Store, slice, stored, memory, memory-IsDevice, volume, blank}

-- "NOTES   TXT"
abbrev note : SqueezedEntry
note = record {
  file_name = 78 ∷ 79 ∷ 84 ∷ 69 ∷ 83 ∷ 32 ∷ 32 ∷ 32 ∷ 84 ∷ 88 ∷ 84 ∷ [];
  attributes = 0x20;
  rca = 2;
  dca = 7;
  file_size = 300;
}

note-IsSqueezed : IsSqueezed note
note-IsSqueezed = record {
  named = refl;
  letters = omega arith;
  byte = omega arith;
  rca_word = omega arith;
  dca_word = omega arith;
  size_word = omega arith;
}

abbrev added : JournalEntry
added = record { op = 1; ca = 2; offset = 3; entry = note; checksum = 0 }

added-IsJournal : IsJournal added
added-IsJournal = record {
  op_byte = omega arith;
  ca_word = omega arith;
  offset_byte = omega arith;
  inner = note-IsSqueezed;
  checksum_word = omega arith;
}

-- the same entry with another operation
abbrev deleted : JournalEntry
deleted = record added { op = 3 }

deleted-IsJournal : IsJournal deleted
deleted-IsJournal = record {
  op_byte = omega arith;
  ca_word = omega arith;
  offset_byte = omega arith;
  inner = note-IsSqueezed;
  checksum_word = omega arith;
}

-- a volume with two copies of the journal, whose entries at index 1 differ
abbrev two_copies : FatData
two_copies = record volume { journals_count = 2 }

abbrev torn : Core Store
torn = record blank {
  store =
      stored (stored blank.store (journal_sector 0 4096) 68 (packed (journal_bytes added)))
        (journal_sector 1 4096) 68 (packed (journal_bytes deleted));
}

torn-CopiesHold : CopiesHold memory two_copies torn 1 0 0 (added ∷ deleted ∷ [])
unfolding journal_sector slice stored packed le32 word_bytes pack_memory set_byte encode
    squeezed_bytes journal_bytes
torn-CopiesHold =
    (added-IsJournal, refl, (omega arith, refl), (deleted-IsJournal, refl, (omega arith, refl), tt))

read_journal-write_journal_example :
    read_journal memory two_copies 1 blank_journal
      (write_journal memory two_copies 1 added (ready blank))
    ≡ ((true, added), write_journal memory two_copies 1 added (ready blank))
read_journal-write_journal_example =
    read_journal-write_journal memory two_copies blank 1 1 added blank_journal memory-IsDevice
      (λ t sa off bytes. omega arith) (omega arith) added-IsJournal (omega arith) refl

restore_entry_twice_example :
    restore_entry memory two_copies 0 blank_journal 1
      (restore_entry memory two_copies 5 blank_journal 1 (ready torn))
    ≡ restore_entry memory two_copies 5 blank_journal 1 (ready torn)
restore_entry_twice_example =
    restore_entry_twice memory two_copies torn 1 0 added (deleted ∷ []) 5 0 blank_journal
      blank_journal memory-IsDevice (λ t sa off bytes. omega arith) (omega arith) (omega arith) refl
      torn-CopiesHold

abbrev idle_log : Logged Store
idle_log = record { state = ready blank; index = 0; lock = null_lock }

restore_from_journal-ends_example :
    restore_from_journal memory volume (λ i. 0) (λ i. blank_journal) 8 idle_log ≢ none
unfolding capacity
restore_from_journal-ends_example =
    restore_from_journal-ends memory volume (λ i. 0) (λ i. blank_journal) 8 idle_log (omega arith)
      (omega arith)

-- clusters of 32 kilobytes
abbrev large_clusters : FatData
large_clusters = record volume { cluster_size = 0x8000; sectors_per_cluster = 64 }

restore_from_journal-stuck_example :
    restore_from_journal memory large_clusters (λ i. 0) (λ i. blank_journal) 100000 idle_log ≡ none
unfolding capacity take_journal_lock require_write attempts try_write
restore_from_journal-stuck_example =
    restore_from_journal-stuck memory large_clusters (λ i. 0) (λ i. blank_journal) 100000 idle_log
      (omega arith) (omega arith) refl
