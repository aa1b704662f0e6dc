-- ===== src/Api/Opening.antt =====
-- nifat32.c: NIFAT32_open_content, and how the functions of the table of open content are called.
use ni_fat.Base.{
  ℕ, ◌==◌, if◌then◌else◌, Bool, true, List, [], ◌∷◌, replicate, Option, none, some, bit_and,
}
use ni_fat.State.{FatData}
use ni_fat.Strings.{ℤ, pos, negsuc}
use ni_fat.Fat.{cluster_bad}
use ni_fat.Layout.{DirectoryEntry}
use ni_fat.Journal.{Logged}
use ni_fat.Content.{Table, alloc_ci, setup_content}
use ni_fat.Content.Access.{Trees, destroy_content}
use ni_fat.Entry.{file_directory}
use ni_fat.Entry.Operations.{entry_index}
use ni_fat.Api.Defs.{Api, World, Host, M, ◌>>=◌, ◌>>◌, pure, on_table, locked, noted}
use ni_fat.Api.Paths.{
  ctable_full_error, entry_path_nfound_error, entry_or, reached, reached_entry, cluster_by_path,
}

unfoldable pub is_directory : DirectoryEntry → Bool
is_directory e = bit_and e.attributes file_directory == file_directory

-- "NIFAT32_DIR"
abbrev pub root_name : List ℕ
root_name = 78 ∷ 73 ∷ 70 ∷ 65 ∷ 84 ∷ 51 ∷ 50 ∷ 95 ∷ 68 ∷ 73 ∷ 82 ∷ []

module _ {S T : Type 0} (h : Host S T) (fi : FatData) where
  -- the trees for the functions of the table that need the file system
  unfoldable pub indexed :
      Option ℕ
      → T × Logged S
      → Option ((Bool × Option ℕ × T) × Logged S)
      → Option ℕ × (T × Logged S)
  indexed root s none = (root, s)
  indexed root s (some ((exit, root', trees), l)) = (root', (trees, l))

  unfoldable pub table_calls : Trees (T × Logged S)
  table_calls = record {
    ecache_free = λ root s. (h.ecache_free root s.0, s.1);
    entry_index =
        λ ca root s. indexed root s (entry_index h.driver fi h.index h.old h.fuel ca root s.0 s.1);
  }

  abbrev pub with_logged : World S T → Table (T × Logged S)
  with_logged w = record {
    contents = w.table.contents;
    lock = w.table.lock;
    trees = (w.table.trees, w.logged);
  }

  abbrev pub split_table : Table (T × Logged S) → World S T
  split_table t = record {
    logged = t.trees.1;
    table = record { contents = t.contents; lock = t.lock; trees = t.trees.0 };
  }

  -- a function of the table that uses `table_calls`
  unfoldable pub on_both :
      {A : Type 0} → (Table (T × Logged S) → A × Table (T × Logged S)) → M S T A
  on_both f w = let (a, t) = f (with_logged w) in some (a, split_table t)

  -- the meta data of the root directory, over what the variable held
  unfoldable pub root_meta : DirectoryEntry
  root_meta = record {
    file_name = replicate 11 0;
    name_hash = 0;
    attributes = 0;
    rca = cluster_bad;
    dca = fi.ext_root_cluster;
    file_size = 0;
    checksum = 0;
  }

  -- the open content of an entry that a path led to
  unfoldable pub open_entry : ℤ → ℕ → Option (ℕ × DirectoryEntry) → M S T ℤ
  open_entry ci mode r =
      let e = entry_or root_meta (reached_entry r) in
      if reached r == cluster_bad
      then (do
        noted h fi entry_path_nfound_error
        done ← on_both (destroy_content table_calls ci)
        pure (negsuc 1))
      else (do
        done ← on_table (setup_content ci (is_directory e) e.file_name (some e) mode)
        pure ci)

  unfoldable pub open_at : ℤ → Option (List ℕ) → ℕ → ℤ → M S T ℤ
  open_at rci none mode ci = do
    done ← on_table (setup_content ci true root_name (some root_meta) mode)
    pure ci
  open_at rci (some path) mode ci = do r ← cluster_by_path h fi path mode rci; open_entry ci mode r

  -- with the index that was allocated
  unfoldable pub open_with : ℤ → Option (List ℕ) → ℕ → ℤ → M S T ℤ
  open_with rci path mode (negsuc n) = do noted h fi ctable_full_error; pure (negsuc 0)
  open_with rci path mode (pos n) = open_at rci path mode (pos n)

  unfoldable pub open_path : ℤ → Option (List ℕ) → ℕ → M S T ℤ
  open_path rci path mode = do ci ← on_table alloc_ci; open_with rci path mode ci

  -- `NIFAT32_open_content`
  unfoldable pub open_content : ℤ → Option (List ℕ) → ℕ → Api S T → Option (ℤ × Api S T)
  open_content rci path mode = locked (negsuc 0) (open_path rci path mode)
