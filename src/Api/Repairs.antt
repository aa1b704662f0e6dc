-- ===== src/Api/Repairs.antt =====
-- nifat32.c: the functions that repair the table and a directory, that give the last error and the
-- general data, and that unload the file system.
use ni_fat.Base.{ℕ, zero, suc, if◌then◌else◌, Bool, true, false, List, Option, none, some}
use ni_fat.State.{FatData, Driver}
use ni_fat.Strings.{ℤ, pos, negsuc}
use ni_fat.Errors.{last_error}
use ni_fat.Fat.{fat_repair, fat_cache_unload}
use ni_fat.Layout.{DirectoryEntry}
use ni_fat.Journal.{Logged}
use ni_fat.Content.Access.{get_content_type, get_content_data_ca, ctable_destroy}
use ni_fat.Entry.{Handler, entry_iterate}
use ni_fat.Api.Defs.{Api, Host, M, ◌>>=◌, pure, asks, on_state, on_logged, locked, unlocked_call}
use ni_fat.Api.Opening.{table_calls, on_both, is_directory}
use ni_fat.Api.Contents.{is_directory_type, failed}

abbrev pub repair_content_error : ℕ
repair_content_error = 33

-- `(fat_data_t){ 0 }`
abbrev pub no_data : FatData
no_data = record {
  fat_count = 0;
  first_data_sector = 0;
  total_sectors = 0;
  total_clusters = 0;
  bytes_per_sector = 0;
  cluster_size = 0;
  sectors_per_cluster = 0;
  ext_root_cluster = 0;
  sectors_padd = 0;
  journals_count = 0;
  errors_count = 0;
  entry_offset = some 0;
}

abbrev pub code_of : Option ℕ → ℤ
code_of none = negsuc 0
code_of (some code) = pos code

-- A handler that is a null pointer: the context is false once it was called.
unfoldable pub null_handler : {S : Type 0} → Handler S Bool
null_handler ca i e ended l = ((true, e, false), l)

module _ {S : Type 0} (d : Driver S) (fi : FatData) where
  -- what a handler does with the walk through a directory that it started
  unfoldable pub keep_entry :
      DirectoryEntry
      → Logged S
      → Option ((Bool × Bool) × Logged S)
      → (Bool × DirectoryEntry × Bool) × Logged S
  keep_entry e l none = ((false, e, false), l)
  keep_entry e l (some ((exit, ended), l')) = ((false, e, ended), l')

  -- `_repair_handler`; the context tells whether all walks came to an end
  unfoldable pub repair_handler : List ℕ → ℕ → Handler S Bool
  repair_handler old zero ca i e ended l = ((false, e, false), l)
  repair_handler old (suc fuel) ca i e ended l = elim (is_directory e) [
    | false ↦ ((false, e, ended), l)
    | true ↦ keep_entry e l (entry_iterate d fi (repair_handler old fuel) old fuel e.dca ended l)
  ]

  unfoldable pub handler_of : List ℕ → ℕ → Bool → Handler S Bool
  handler_of old fuel true = repair_handler old fuel
  handler_of old fuel false = null_handler

  -- the walk of `NIFAT32_repair_content`, which is a fault once a null pointer is called
  unfoldable pub repair_entries : List ℕ → ℕ → Bool → ℕ → Logged S → Option (Bool × Logged S)
  repair_entries old fuel rec ca l =
      elim (entry_iterate d fi (handler_of old fuel rec) old fuel ca true l) [
        | none ↦ none
        | some ((exit, ended), l') ↦ if ended then some (exit, l') else none
      ]

module _ {S T : Type 0} (h : Host S T) (fi : FatData) where
  -- `NIFAT32_get_fs_data`
  unfoldable pub get_fs_data : Api S T → Option (FatData × Api S T)
  get_fs_data = locked no_data (pure fi)

  -- `NIFAT32_repair_fat`
  unfoldable pub repair_fat : Api S T → Option (Bool × Api S T)
  repair_fat = unlocked_call false (on_state (fat_repair h.driver fi))

  unfoldable pub repair_directory : ℤ → Bool → M S T ℕ
  repair_directory ci rec = do
    kind ← asks (λ w. get_content_type ci w.table)
    ca ← asks (λ w. get_content_data_ca ci w.table)
    if is_directory_type kind
        then (do exit ← on_logged (repair_entries h.driver fi h.old h.fuel rec ca); pure 1)
        else failed h fi repair_content_error

  -- `NIFAT32_repair_content`
  unfoldable pub repair_content : ℤ → Bool → Api S T → Option (ℕ × Api S T)
  repair_content ci rec = locked 0 (repair_directory ci rec)

  -- `NIFAT32_get_last_error`
  unfoldable pub get_last_error : Api S T → Option (ℤ × Api S T)
  get_last_error =
      unlocked_call (negsuc 0) (do r ← on_state (last_error h.driver fi); pure (code_of r))

  -- `NIFAT32_unload`
  unfoldable pub unload : Api S T → Option (ℕ × Api S T)
  unload = locked 0 (do
    cache ← on_state fat_cache_unload
    table ← on_both h fi (ctable_destroy (table_calls h fi))
    pure 1)
