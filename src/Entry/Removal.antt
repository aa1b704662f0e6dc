-- ===== src/Entry/Removal.antt =====
-- src/entry.c, `entry_remove`: the clusters of a file are given back, those of a directory with all
-- that is in it, and the entry is marked as free. The walk has its rounds and its depth as one fuel.
use ni_fat.Base.{
  ℕ, zero, suc, ◌==◌, if◌then◌else◌, Bool, true, false, ◌&&◌, List, [], ◌∷◌, Option, none, some,
  set,
}
use ni_fat.State.{FatData, Driver}
use ni_fat.Fat.{cluster_end, read_fat}
use ni_fat.Cluster.{cluster_deallocation_error, dealloc_cluster, dealloc_chain}
use ni_fat.Layout.{DirectoryEntry, JournalEntry}
use ni_fat.Journal.{Logged, del_op, add_operation}
use ni_fat.Entry.{
  Handler, validate_entry, first_byte, is_live, is_file, entry_free, entry_end, entries_of,
  entries_per_cluster, report, read_encoded_cluster, entry_iterate,
}
use ni_fat.Entry.Operations.{Index, Change, hash_of, is_same_name, forget, solve}

-- the loop over the entries of a directory that is erased
unfoldable pub erase_entries :
    {S : Type 0}
    → (DirectoryEntry → Logged S → Option (Logged S))
    → List DirectoryEntry
    → Logged S
    → Option (Logged S)
erase_entries erase [] l = some l
erase_entries erase (e ∷ es) l =
    let skipped = erase_entries erase es l in
    if first_byte e == entry_end
    then some l
    else if is_live e
    then (elim (erase e l) [ none ↦ none | some l' ↦ erase_entries erase es l' ])
    else skipped

module _ {S T : Type 0} (d : Driver S) (fi : FatData) (calls : Index T) where
  unfoldable pub free_directory_cluster : ℕ → Logged S → Logged S
  free_directory_cluster ca l =
      let (freed, s) = dealloc_cluster d fi ca l.state in
      let l1 : Logged S = record l { state = s } in
      if freed then l1 else report d fi cluster_deallocation_error l1

  -- `_entry_erase_rec`, which answers 0 or 1: its callers only test for less than 0.
  unfoldable pub erase_rec : List ℕ → ℕ → ℕ → Bool → Logged S → Option (Logged S)
  erase_rec old zero ca file l = none
  erase_rec old (suc fuel) ca true l =
      let (done, s) = dealloc_chain d fi fuel ca l.state in
      elim done [ none ↦ none | some r ↦ some (record l { state = s }) ]
  erase_rec old (suc fuel) ca false l =
      let (got, l1) = read_encoded_cluster d fi ca old l in
      elim got [
        | none ↦ some l1
        | some bytes ↦
            let (nca, s) = read_fat d fi ca l1.state in
            let inside =
              erase_entries (λ e m. erase_rec old fuel e.dca (is_file e) m)
                (entries_of (entries_per_cluster fi) bytes) (record l1 { state = s }) in
            elim inside [
              | none ↦ none
              | some l2 ↦
                  let l3 = free_directory_cluster ca l2 in
                  let rest = erase_rec old fuel nca false l3 in
                  if nca == cluster_end then some l3 else rest
            ]
      ]

  -- the entry with its first byte as the mark of a free one
  unfoldable pub mark_free : DirectoryEntry → DirectoryEntry
  mark_free e = record e { file_name = set e.file_name 0 entry_free }

  -- whether an erasure came to an end, and the state after it
  unfoldable pub erased : Logged S → Option (Logged S) → Bool × Logged S
  erased l none = (false, l)
  erased l (some m) = (true, m)

  -- `_remove_handler`, whose context tells as well whether the erasure came to its end
  unfoldable pub remove_handler :
      (ℕ → JournalEntry) → List ℕ → ℕ → List ℕ → Handler S (Change T × Bool)
  remove_handler places old fuel name ca i e (c, ended) l =
      let trees = forget calls c.root (hash_of name) c.trees in
      let (ji, l1) = add_operation d fi places del_op ca i e l in
      let (done, l2) = erased l1 (erase_rec old fuel e.dca (is_file e) l1) in
      if is_live e && is_same_name name e.file_name
      then ((true, mark_free e, (record c { journal_index = ji; trees = trees }, done)), l2)
      else ((false, (validate_entry e).1, (c, ended)), l)

  -- `entry_remove`; `none` is no end in `fuel` rounds
  unfoldable pub entry_remove :
      (ℕ → JournalEntry)
      → List ℕ
      → ℕ
      → ℕ
      → List ℕ
      → Option ℕ
      → T
      → Logged S
      → Option ((Bool × T) × Logged S)
  entry_remove places old fuel ca name root trees l =
      let start : Change T = record { root = root; journal_index = none; trees = trees } in
      elim (entry_iterate d fi (remove_handler places old fuel name) old fuel ca (start, true) l) [
        | none ↦ none
        | some ((result, (c, ended)), l') ↦
            if ended then some ((result, c.trees), solve d fi calls c.journal_index l') else none
      ]
