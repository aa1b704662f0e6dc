-- ===== src/Api/Paths.antt =====
-- nifat32.c: the walk along a path, NIFAT32_content_exists and NIFAT32_open_content, in the build with
-- writing. A path is its bytes; behind them stands the terminator.
use ni_fat.Base.{
  ℕ, zero, suc, ◌+◌, ◌-◌, ◌==◌, leb, if◌then◌else◌, Bool, true, false, not, ◌||◌, List, get_or,
  drop, replicate, Option, none, some,
}
use ni_fat.State.{FatData}
use ni_fat.Strings.{ℤ, pos, negsuc, memcpy, strlen}
use ni_fat.Names.{splitter, name_to_fatname}
use ni_fat.Fat.{cluster_bad, cluster_end, write_fat}
use ni_fat.Cluster.{dealloc_cluster}
use ni_fat.Layout.{DirectoryEntry}
use ni_fat.Content.Access.{get_content_data_ca, get_content_ecache}
use ni_fat.Entry.{create_entry}
use ni_fat.Entry.Operations.{entry_search}
use ni_fat.Entry.Growth.{entry_add}
use ni_fat.Api.Defs.{
  Api, Host, M, ◌>>=◌, ◌>>◌, pure, asks, on_state, on_logged, on_trees, is_create_mode, mode_target,
  file_target, default_mode, locked, noted,
}
use ni_fat.Api.Chains.{set_cluster_end_error, new_cluster}

abbrev pub add_entry_error : ℕ
add_entry_error = 10

abbrev pub ctable_full_error : ℕ
ctable_full_error = 12

abbrev pub entry_path_nfound_error : ℕ
entry_path_nfound_error = 13

-- NO_RCI
abbrev pub no_rci : ℤ
no_rci = negsuc 0

unfoldable pub is_no_rci : ℤ → Bool
is_no_rci (pos n) = false
is_no_rci (negsuc n) = n == 0

-- `fatname_buffer` of the part of a path that has `n` bytes
unfoldable pub part_name : List ℕ → ℕ → List ℕ
part_name part n = name_to_fatname (memcpy (replicate 32 0) part n) (replicate 32 0)

-- the entry that a search filled in
abbrev pub entry_or : DirectoryEntry → Option DirectoryEntry → DirectoryEntry
entry_or e none = e
entry_or e (some found) = found

abbrev pub is_error : ℤ → Bool
is_error (pos n) = false
is_error (negsuc n) = true

-- the cluster that is returned
abbrev pub reached : Option (ℕ × DirectoryEntry) → ℕ
reached none = cluster_bad
reached (some r) = r.0

-- the entry that is returned with it
abbrev pub reached_entry : Option (ℕ × DirectoryEntry) → Option DirectoryEntry
reached_entry none = none
reached_entry (some r) = some r.1

module _ {S T : Type 0} (h : Host S T) (fi : FatData) where
  -- `entry_search` into an entry: whether it was found, and the entry afterwards
  unfoldable pub search_into :
      List ℕ → ℕ → Option ℕ → DirectoryEntry → M S T (Bool × DirectoryEntry)
  search_into name ca root e = do
    trees ← asks (λ w. w.table.trees)
    found ← on_logged (entry_search h.driver fi h.index h.old h.fuel name ca root (some e) trees)
    pure (found.0, entry_or e found.1)

  -- `entry_add`: its answer, and the entry afterwards
  unfoldable pub add_into : ℕ → Option ℕ → DirectoryEntry → M S T (ℤ × DirectoryEntry)
  add_into ca root e = on_trees (λ trees l.
      elim (entry_add h.driver fi h.index h.places h.old h.fuel ca root e trees l) [
        | none ↦ none
        | some ((code, e', trees'), l') ↦ some (((code, e'), trees'), l')
      ])

  -- what is done when a new entry cannot be added; the walk goes on all the same
  unfoldable pub undo_entry : ℤ × DirectoryEntry → M S T DirectoryEntry
  undo_entry r =
      if is_error r.0
      then (do
        freed ← on_state (dealloc_cluster h.driver fi r.1.dca)
        noted h fi add_entry_error
        pure r.1)
      else pure r.1

  -- A part that is not there is created: the entry for it, or `none` for a return of FAT_CLUSTER_BAD.
  unfoldable pub create_part :
      List ℕ → Bool → ℕ → Option ℕ → DirectoryEntry → M S T (Option DirectoryEntry)
  create_part name is_dir active root e = do
    nca ← on_state (new_cluster h.driver fi)
    ended ← on_state (write_fat h.driver fi nca cluster_end)
    if ended
        then (do
          added ← add_into active root (create_entry name is_dir nca fi.cluster_size e)
          e' ← undo_entry added
          pure (some e'))
        else (do noted h fi set_cluster_end_error; pure none)

  -- a part of a path, which `last` tells to be the last
  unfoldable pub visit_part :
      ℕ → List ℕ → Bool → ℕ → Option ℕ → DirectoryEntry → M S T (Option DirectoryEntry)
  visit_part mode name last active root e = do
    found ← search_into name active root e
    if found.0
        then pure (some found.1)
        else (if is_create_mode mode
            then create_part name (not last || not (mode_target mode == file_target)) active root
                found.1
            else pure none)

  -- The loop over the path, with the rounds that are left and `iterator`. The tree is that of the root
  -- content, for the first part only.
  unfoldable pub walk_path :
      ℕ → List ℕ → ℕ → ℕ → ℕ → ℕ → Option ℕ → DirectoryEntry → M S T (Option (ℕ × DirectoryEntry))
  walk_path mode path zero i start active root e w = some (some (active, e), w)
  walk_path mode path (suc n) i start active root e w =
      let c = get_or path i 0 in
      let name = part_name (drop start path) (i - start) in
      elim (c == splitter || c == 0) [
        | false ↦ walk_path mode path n (i + 1) start active root e w
        | true ↦ elim (leb 32 (i - start)) [
          | true ↦ some (none, w)
          | false ↦ elim (visit_part mode name (c == 0) active root e w) [
            | none ↦ none
            | some (none, w') ↦ some (none, w')
            | some (some e', w') ↦ walk_path mode path n (i + 1) (i + 1) e'.dca none e' w'
          ]
        ]
      ]

  -- `_get_cluster_by_path`; `none` is FAT_CLUSTER_BAD before the end of the path
  unfoldable pub cluster_by_path : List ℕ → ℕ → ℤ → M S T (Option (ℕ × DirectoryEntry))
  cluster_by_path path mode rci w =
      let first = if is_no_rci rci then fi.ext_root_cluster else get_content_data_ca rci w.table in
      walk_path mode path (suc (strlen path)) 0 0 first (get_content_ecache rci w.table) h.entry w

  unfoldable pub is_there : List ℕ → M S T Bool
  is_there path = do
    r ← cluster_by_path path default_mode no_rci
    pure (not (reached r == cluster_bad))

  -- `NIFAT32_content_exists`
  unfoldable pub content_exists : List ℕ → Api S T → Option (Bool × Api S T)
  content_exists path = locked false (is_there path)
