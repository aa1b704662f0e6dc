-- ===== src/Api/Contents.antt =====
-- nifat32.c: the functions that index, close, describe, rename, create and delete open content, in the
-- build with writing.
use ni_fat.Base.{ℕ, zero, suc, ◌-◌, ◌*◌, ◌==◌, if◌then◌else◌, Bool, true, false, Option, none, u32}
use ni_fat.State.{FatData}
use ni_fat.Strings.{ℤ}
use ni_fat.Fat.{cluster_end, write_fat}
use ni_fat.Cluster.{dealloc_cluster}
use ni_fat.Content.{ContentType, unknown, file, directory, empty}
use ni_fat.Content.Access.{
  Info, stat_dir, get_content_type, get_content_data_ca, get_content_root_ca, get_content_name,
  get_content_ecache, index_content, destroy_content, stat_content,
}
use ni_fat.Entry.{create_entry}
use ni_fat.Entry.Operations.{entry_edit, entry_search}
use ni_fat.Entry.Removal.{entry_remove}
use ni_fat.Entry.Growth.{entry_add_error}
use ni_fat.Api.Defs.{
  Api, Host, M, ◌>>=◌, ◌>>◌, pure, given, asks, on_state, on_trees, on_logged, locked, noted,
}
use ni_fat.Api.Chains.{set_cluster_end_error, new_cluster, add_cluster_to_chain}
use ni_fat.Api.Paths.{is_error, add_into}
use ni_fat.Api.Opening.{table_calls, on_both}

abbrev pub content_index_error : ℕ
content_index_error = 14

abbrev pub entry_edit_error : ℕ
entry_edit_error = 27

abbrev pub entry_search_error : ℕ
entry_search_error = 28

abbrev pub entry_remove_error : ℕ
entry_remove_error = 30

-- NO_RESERVE
abbrev pub no_reserve : ℕ
no_reserve = 1

unfoldable pub is_directory_type : ContentType → Bool
is_directory_type unknown = false
is_directory_type file = false
is_directory_type directory = true
is_directory_type empty = false

module _ {S T : Type 0} (h : Host S T) (fi : FatData) where
  -- an error that ends a function with 0
  unfoldable pub failed : ℕ → M S T ℕ
  failed code = do noted h fi code; pure 0

  unfoldable pub index_directory : ℤ → M S T ℕ
  index_directory ci = do
    kind ← asks (λ w. get_content_type ci w.table)
    if is_directory_type kind
        then on_both h fi (index_content (table_calls h fi) ci)
        else failed content_index_error

  -- `NIFAT32_index_content`
  unfoldable pub api_index_content : ℤ → Api S T → Option (ℕ × Api S T)
  api_index_content ci = locked 0 (index_directory ci)

  -- `NIFAT32_close_content`
  unfoldable pub close_content : ℤ → Api S T → Option (ℕ × Api S T)
  close_content ci = locked 0 (on_both h fi (destroy_content (table_calls h fi) ci))

  unfoldable pub describe_content : ℤ → Info → M S T (ℕ × Info)
  describe_content ci info = do r ← asks (λ w. stat_content ci info w.table); given r

  -- `NIFAT32_stat_content`, with what it fills in; an index out of range is a fault
  unfoldable pub api_stat_content : ℤ → Info → Api S T → Option ((ℕ × Info) × Api S T)
  api_stat_content ci info = locked (0, info) (describe_content ci info)

  unfoldable pub edit_meta : ℤ → Info → M S T ℕ
  edit_meta ci info = do
    ca ← asks (λ w. get_content_data_ca ci w.table)
    let meta = create_entry info.full_name (info.type == stat_dir) ca info.size h.entry
    root ← asks (λ w. get_content_root_ca ci w.table)
    tree ← asks (λ w. get_content_ecache ci w.table)
    name ← asks (λ w. get_content_name ci w.table)
    text ← given name
    done ← on_trees (entry_edit h.driver fi h.index h.places h.old h.fuel root tree text meta)
    if done then pure 1 else failed entry_edit_error

  -- `NIFAT32_change_meta`
  unfoldable pub change_meta : ℤ → Info → Api S T → Option (ℕ × Api S T)
  change_meta ci info = locked 0 (edit_meta ci info)

  -- the loop that adds clusters to a new entry; what it adds to does not matter after an error
  unfoldable pub reserve_clusters : ℕ → ℕ → M S T (Unit {0})
  reserve_clusters zero lca = pure tt
  reserve_clusters (suc n) lca = do
    nca ← on_state (add_cluster_to_chain h.driver fi lca)
    reserve_clusters n nca

  -- a new entry with its first cluster
  unfoldable pub add_content : ℕ → Option ℕ → Info → ℕ → ℕ → M S T ℕ
  add_content target tree info reserve ca = do
    let size = u32 (reserve * fi.cluster_size)
    added ←
        add_into h fi target tree
          (create_entry info.full_name (info.type == stat_dir) ca size h.entry)
    if is_error added.0
        then (do
          noted h fi entry_add_error
          freed ← on_state (dealloc_cluster h.driver fi added.1.dca)
          pure 0)
        else (do reserve_clusters (reserve - no_reserve) added.1.dca; pure 1)

  -- the entry of a name that is not there yet
  unfoldable pub new_content : ℕ → Option ℕ → Info → ℕ → M S T ℕ
  new_content target tree info reserve = do
    ca ← on_state (new_cluster h.driver fi)
    ended ← on_state (write_fat h.driver fi ca cluster_end)
    if ended then add_content target tree info reserve ca else failed set_cluster_end_error

  unfoldable pub put_entry : ℤ → Info → ℕ → M S T ℕ
  put_entry ci info reserve = do
    target ← asks (λ w. get_content_data_ca ci w.table)
    tree ← asks (λ w. get_content_ecache ci w.table)
    trees ← asks (λ w. w.table.trees)
    found ←
        on_logged
          (entry_search h.driver fi h.index h.old h.fuel info.full_name target tree none trees)
    if found.0 then failed entry_search_error else new_content target tree info reserve

  -- `NIFAT32_put_content`, for a `reserve` that is not negative
  unfoldable pub put_content : ℤ → Info → ℕ → Api S T → Option (ℕ × Api S T)
  put_content ci info reserve = locked 0 (put_entry ci info reserve)

  unfoldable pub remove_content : ℤ → M S T ℕ
  remove_content ci = do
    root ← asks (λ w. get_content_root_ca ci w.table)
    name ← asks (λ w. get_content_name ci w.table)
    text ← given name
    tree ← asks (λ w. get_content_ecache ci w.table)
    removed ← on_trees (entry_remove h.driver fi h.index h.places h.old h.fuel root text tree)
    if removed
        then (do closed ← on_both h fi (destroy_content (table_calls h fi) ci); pure 1)
        else failed entry_remove_error

  -- `NIFAT32_delete_content`
  unfoldable pub delete_content : ℤ → Api S T → Option (ℕ × Api S T)
  delete_content ci = locked 0 (remove_content ci)
