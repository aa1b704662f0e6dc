-- ===== src/Entry/Operations.antt =====
-- src/entry.c: the functions that `entry_iterate` is called with, and their callers. The trees of
-- names are those of src/ecache.c, in a memory `T`; a root that is NO_ECACHE is `none`.
use ni_fat.Base.{ℕ, ◌==◌, if◌then◌else◌, Bool, true, false, ◌&&◌, List, Option, none, some, take}
use ni_fat.State.{FatData, Driver}
use ni_fat.Checksum.{murmur3}
use ni_fat.Strings.{pos, negsuc, strncmp}
use ni_fat.Layout.{DirectoryEntry, JournalEntry}
use ni_fat.Journal.{Logged, edit_op, add_operation, solve_operation}
use ni_fat.Entry.{Handler, create_entry, validate_entry, is_live, is_file, entry_iterate}

-- `ecache_find`, which gives the kind and the cluster of a hash, `ecache_insert` and `ecache_delete`,
-- which give the root afterwards
pub record Index (T : Type 0) : Type 0 where
  pub find : ℕ → ℕ → T → Option (Bool × ℕ)
  pub insert : Option ℕ → ℕ → Bool → ℕ → T → Option ℕ × T
  pub delete : ℕ → ℕ → T → Option ℕ × T

-- the hash of a name of eleven bytes
unfoldable pub hash_of : List ℕ → ℕ
hash_of name = murmur3 (take 11 name) 0

unfoldable pub is_same_name : List ℕ → List ℕ → Bool
is_same_name a b = elim (strncmp a b 11) [ pos n ↦ n == 0 | negsuc n ↦ false ]

-- The context of a search: where the entry that is found goes, if anywhere.
abbrev pub Meta : Type 0
Meta = Option DirectoryEntry

unfoldable pub copy_found : ℕ → DirectoryEntry → Meta → Meta
copy_found ca e none = none
copy_found ca e (some m) = some (record e { rca = ca })

-- the tests of `_search_handler` and `_edit_handler`
unfoldable pub is_sought : List ℕ → DirectoryEntry → Bool
is_sought name e = is_live e && (hash_of name == e.name_hash && is_same_name name e.file_name)

-- `_search_handler`
unfoldable pub search_handler : {S : Type 0} → List ℕ → Handler S Meta
search_handler name ca i e meta l =
    if is_sought name e
    then ((true, e, copy_found ca e meta), l)
    else ((false, (validate_entry e).1, meta), l)

-- `_index_handler`, with the root of the tree and the memory of the trees as its context
unfoldable pub index_handler : {S T : Type 0} → Index T → Handler S (Option ℕ × T)
index_handler calls ca i e (root, trees) l =
    if is_live e
    then ((false, e, calls.insert root (hash_of e.file_name) (is_file e) e.dca trees), l)
    else ((false, (validate_entry e).1, (root, trees)), l)

-- `entry_ctx_t` of an edit or a removal; a `ji` of -1 is `none`.
pub record Change (T : Type 0) : Type 0 where
  pub root : Option ℕ
  pub journal_index : Option ℕ
  pub trees : T

-- the tree after a name is taken out of it, whose root is not kept
unfoldable pub forget : {T : Type 0} → Index T → Option ℕ → ℕ → T → T
forget calls none hash trees = trees
forget calls (some root) hash trees = (calls.delete root hash trees).1

unfoldable pub learn : {T : Type 0} → Index T → Option ℕ → ℕ → Bool → ℕ → T → T
learn calls none hash is_dir ca trees = trees
learn calls (some root) hash is_dir ca trees = (calls.insert (some root) hash is_dir ca trees).1

module _ {S T : Type 0} (d : Driver S) (fi : FatData) (calls : Index T) where
  -- `entry_index`
  unfoldable pub entry_index :
      List ℕ → ℕ → ℕ → Option ℕ → T → Logged S → Option ((Bool × Option ℕ × T) × Logged S)
  entry_index old fuel ca root trees l =
      elim (entry_iterate d fi (index_handler calls) old fuel ca (root, trees) l) [
        | none ↦ none
        | some ((exit, c), l') ↦ some ((exit, c.0, c.1), l')
      ]

  -- what a tree answers to a name
  unfoldable pub cached_entry : Option ℕ → List ℕ → T → Option (Bool × ℕ)
  cached_entry none name trees = none
  cached_entry (some root) name trees = calls.find root (hash_of name) trees

  unfoldable pub meta_of : List ℕ → Bool × ℕ → Meta → Meta
  meta_of name hit none = none
  meta_of name hit (some m) = some (create_entry name hit.0 hit.1 0 m)

  -- the search after a tree has given its answer
  unfoldable pub search_with :
      List ℕ
      → ℕ
      → List ℕ
      → ℕ
      → Meta
      → Logged S
      → Option (Bool × ℕ)
      → Option ((Bool × Meta) × Logged S)
  search_with old fuel name ca meta l (some hit) = some ((true, meta_of name hit meta), l)
  search_with old fuel name ca meta l none =
      entry_iterate d fi (search_handler name) old fuel ca meta l

  -- `entry_search` of a name that is not NULL
  unfoldable pub entry_search :
      List ℕ → ℕ → List ℕ → ℕ → Option ℕ → Meta → T → Logged S → Option ((Bool × Meta) × Logged S)
  entry_search old fuel name ca root meta trees l =
      search_with old fuel name ca meta l (cached_entry root name trees)

  -- `_edit_handler`; `places` is what the variable of the journal's search holds
  unfoldable pub edit_handler : (ℕ → JournalEntry) → List ℕ → DirectoryEntry → Handler S (Change T)
  edit_handler places name meta ca i e c l =
      let (ji, l1) = add_operation d fi places edit_op ca i meta l in
      let trees =
        learn calls c.root (hash_of e.file_name) (is_file e) e.dca
          (forget calls c.root (hash_of name) c.trees) in
      if is_sought name e
      then ((true, meta, record c { journal_index = ji; trees = trees }), l1)
      else ((false, (validate_entry e).1, c), l)

  -- `journal_solve_operation` of an operation that was added
  unfoldable pub solve : Option ℕ → Logged S → Logged S
  solve none l = l
  solve (some i) l = (solve_operation d fi (some i) l).1

  -- `entry_edit`
  unfoldable pub entry_edit :
      (ℕ → JournalEntry)
      → List ℕ
      → ℕ
      → ℕ
      → Option ℕ
      → List ℕ
      → DirectoryEntry
      → T
      → Logged S
      → Option ((Bool × T) × Logged S)
  entry_edit places old fuel ca root name meta trees l =
      let start : Change T = record { root = root; journal_index = none; trees = trees } in
      elim (entry_iterate d fi (edit_handler places name meta) old fuel ca start l) [
        | none ↦ none
        | some ((result, c), l') ↦ some ((result, c.trees), solve c.journal_index l')
      ]
