-- ===== src/Tests/Directory.antt =====
-- A cluster of a directory with an entry, a free place and another entry.
use ni_fat.Base.{
  ℕ, ◌≡◌, ◌≢◌, refl, arith, true, false, if◌then◌else◌, List, [], ◌∷◌, replicate, some,
}
use ni_fat.State.{ready}
use ni_fat.Threading.{null_lock}
use ni_fat.Layout.{DirectoryEntry, directory_bytes}
use ni_fat.Checksum.{rotl32, fmix32, scramble, mix_block, mix_bytes, murmur3}
use ni_fat.Hamming.Buffer.{le32}
use ni_fat.Strings.{memcpy, copy_words, copy_bytes, strncmp}
use ni_fat.Journal.{Logged}
use ni_fat.Entry.{
  create_entry, entry_sum, validate_entry, first_byte, is_live, scan_entries, entry_end, entry_free,
}
use ni_fat.Entry.Operations.{copy_found, is_sought, search_handler, hash_of, is_same_name}
use ni_fat.Entry.Growth.{is_open, seal, mark_end, fill_slot}
use ni_fat.Entry.Slots.{validate_entry-seal, scan_entries-fill_slot}
use ni_fat.Tests.Device.{Store, blank}

abbrev vacant : DirectoryEntry
vacant = record {
  file_name = replicate 11 0;
  name_hash = 0;
  attributes = 0;
  rca = 0;
  dca = 0;
  file_size = 0;
  checksum = 0;
}

-- names of eleven equal letters
abbrev file_named : ℕ → DirectoryEntry
file_named letter = seal 5 (create_entry (replicate 11 letter) false 9 100 vacant)

abbrev removed : DirectoryEntry
removed = record vacant { file_name = entry_free ∷ replicate 10 70 }

abbrev directory : List DirectoryEntry
directory = file_named 65 ∷ removed ∷ file_named 67 ∷ []

abbrev filled : List DirectoryEntry
filled = file_named 65 ∷ file_named 66 ∷ mark_end (file_named 67 ∷ [])

validate_entry-seal_example :
    validate_entry (seal 5 (create_entry (replicate 11 65) false 9 100 vacant))
    ≡ (true, file_named 65)
validate_entry-seal_example =
    validate_entry-seal 5 (create_entry (replicate 11 65) false 9 100 vacant)
      (unfold create_entry in refl)

fill_slot_run : fill_slot (file_named 66) directory ≡ some (1, filled)
unfolding fill_slot is_open mark_end rotl32 fmix32 scramble mix_block mix_bytes murmur3
    validate_entry entry_sum directory_bytes seal create_entry memcpy copy_words copy_bytes le32
    first_byte
fill_slot_run = refl

abbrev idle_journal : Logged Store
idle_journal = record { state = ready blank; index = 0; lock = null_lock }

abbrev third : List ℕ
third = replicate 11 67

not_first : is_sought third (file_named 65) ≡ false
unfolding is_sought is_live hash_of is_same_name strncmp rotl32 fmix32 scramble mix_block mix_bytes
    murmur3 validate_entry entry_sum directory_bytes seal create_entry memcpy copy_words copy_bytes
    le32 first_byte
not_first = refl

starts_66 : first_byte (file_named 66) ≢ entry_end
unfolding rotl32 fmix32 scramble mix_block mix_bytes murmur3 validate_entry entry_sum
    directory_bytes seal create_entry memcpy copy_words copy_bytes le32 first_byte
starts_66 e = omega (arith, e)

-- The third entry is found in the directory as it was, and no more once the second is stored.
scan_entries-fill_slot_example :
    let r = scan_entries (search_handler third) 5 0 filled (some vacant) idle_journal in
    (r.0.0 ≡ is_sought third (file_named 66))
    × (r.0.2 ≡ (
        if is_sought third (file_named 66)
        then copy_found 5 (file_named 66) (some vacant)
        else some vacant))
    × (r.1 ≡ idle_journal)
scan_entries-fill_slot_example =
    scan_entries-fill_slot third 5 (file_named 66) directory (1, filled) (some vacant) idle_journal
      fill_slot_run (not_first, tt) starts_66

found_before :
    (scan_entries (search_handler third) 5 0 directory (some vacant) idle_journal).0.0 ≡ true
unfolding scan_entries search_handler is_sought is_live hash_of is_same_name strncmp rotl32 fmix32
    scramble mix_block mix_bytes murmur3 validate_entry entry_sum directory_bytes seal create_entry
    memcpy copy_words copy_bytes le32 first_byte
found_before = refl

lost_after : (scan_entries (search_handler third) 5 0 filled (some vacant) idle_journal).0.0 ≡ false
unfolding scan_entries search_handler mark_end is_sought is_live hash_of is_same_name strncmp rotl32
    fmix32 scramble mix_block mix_bytes murmur3 validate_entry entry_sum directory_bytes seal
    create_entry memcpy copy_words copy_bytes le32 first_byte
lost_after = refl
