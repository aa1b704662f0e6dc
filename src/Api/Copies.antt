-- ===== src/Api/Copies.antt =====
-- nifat32.c: NIFAT32_copy_content, in the build with writing. A walk has its rounds, and that of a
-- directory its depth, as fuel.
use ni_fat.Base.{
  ℕ, zero, suc, ◌==◌, if◌then◌else◌, Bool, true, false, not, ◌||◌, List, Option, none, some,
}
use ni_fat.State.{FatData, State, Driver}
use ni_fat.Strings.{ℤ}
use ni_fat.Errors.{register_error}
use ni_fat.Fat.{cluster_bad, cluster_end, read_fat, write_fat}
use ni_fat.Cluster.{copy_cluster, dealloc_chain}
use ni_fat.Layout.{DirectoryEntry}
use ni_fat.Journal.{Logged}
use ni_fat.Content.Access.{
  get_content_type, get_content_data_ca, get_content_root_ca, get_content_name, set_content_data_ca,
}
use ni_fat.Entry.{Handler, entry_sum, entry_iterate}
use ni_fat.Entry.Operations.{entry_edit}
use ni_fat.Api.Defs.{
  Api, Host, M, ◌>>=◌, pure, given, asks, bounded_state, on_table, on_trees, on_logged, is_over,
  locked,
}
use ni_fat.Api.Chains.{new_cluster, add_cluster_to_chain}
use ni_fat.Api.Paths.{search_into}
use ni_fat.Api.Opening.{is_directory}
use ni_fat.Api.Contents.{entry_edit_error, entry_search_error, is_directory_type, failed}

abbrev pub copy_cluster_error : ℕ
copy_cluster_error = 31

abbrev pub unknown_deep_type_error : ℕ
unknown_deep_type_error = 32

abbrev pub cluster_chain_deletion_error : ℕ
cluster_chain_deletion_error = 38

-- DEEP_COPY and SHALLOW_COPY
abbrev pub deep_copy : ℕ
deep_copy = 1

abbrev pub shallow_copy : ℕ
shallow_copy = 2

-- the checksum as it is validated
unfoldable pub sealed : DirectoryEntry → DirectoryEntry
sealed e =
    let bare : DirectoryEntry = record e { checksum = 0 } in record e { checksum = entry_sum bare }

module _ {S : Type 0} (d : Driver S) (fi : FatData) (buffer : List ℕ) where
  -- the cluster to copy to next, which is a new one unless the source ends
  unfoldable pub next_target : ℕ → ℕ → State S → ℕ × State S
  next_target src dst s = elim (src == cluster_end) [
    | true ↦ (dst, s)
    | false ↦ add_cluster_to_chain d fi dst s
  ]

  -- The loop that copies a chain: whether it went well. `buffer` is what the buffer holds at first.
  unfoldable pub copy_chain : ℕ → ℕ → ℕ → State S → Option (Bool × State S)
  copy_chain zero src dst s = none
  copy_chain (suc fuel) src dst s =
      let (copied, s1) = copy_cluster d fi src dst buffer fi.bytes_per_sector s in
      let (next, s2) = read_fat d fi src s1 in
      let (target, s3) = next_target next dst s2 in
      elim (copied == 0) [
        | true ↦ some (false, (register_error d fi copy_cluster_error s1).1)
        | false ↦ elim (is_over next || target == cluster_bad) [
          | true ↦ some (true, s3)
          | false ↦ copy_chain fuel next target s3
        ]
      ]

  -- what is done with a copy that failed: its chain is given back
  unfoldable pub abort_copy : Option Bool × State S → Option (State S)
  abort_copy (none, s) = none
  abort_copy (some true, s) = some s
  abort_copy (some false, s) = some (register_error d fi cluster_chain_deletion_error s).1

  unfoldable pub finish_copy : ℕ → ℕ → Option (Bool × State S) → Option (Bool × State S)
  finish_copy fuel head none = none
  finish_copy fuel head (some (true, s)) = some (true, s)
  finish_copy fuel head (some (false, s)) = elim (abort_copy (dealloc_chain d fi fuel head s)) [
    | none ↦ none
    | some s' ↦ some (false, s')
  ]

  -- the copy of a chain to one that starts at `head`
  unfoldable pub copy_to : ℕ → ℕ → ℕ → State S → Option (Bool × State S)
  copy_to fuel src head s = finish_copy fuel head (copy_chain fuel src head s)

  -- a new chain with what is on another: its first cluster, whether it went well
  unfoldable pub clone_chain : ℕ → ℕ → State S → Option ((ℕ × Bool) × State S)
  clone_chain fuel src s =
      let (nca, s1) = new_cluster d fi s in
      let (ended, s2) = write_fat d fi nca cluster_end s1 in
      elim ended [
        | false ↦ some ((nca, true), s2)
        | true ↦ elim (copy_to fuel src nca s2) [
          | none ↦ none
          | some (ok, s3) ↦ some ((nca, ok), s3)
        ]
      ]

  -- what `_deepcopy_handler` makes of a clone; the context tells whether all walks came to an end
  unfoldable pub adopt_clone :
      (ℕ → Bool → Logged S → Option ((Bool × Bool) × Logged S))
      → DirectoryEntry
      → Bool
      → Logged S
      → Option ((ℕ × Bool) × State S)
      → (Bool × DirectoryEntry × Bool) × Logged S
  adopt_clone inside e ended l none = ((false, e, false), l)
  adopt_clone inside e ended l (some ((head, false), s)) =
      ((false, e, ended), record l { state = s })
  adopt_clone inside e ended l (some ((head, true), s)) =
      let copy = sealed (record e { dca = head }) in
      let l1 : Logged S = record l { state = s } in
      elim (is_directory copy) [
        | false ↦ ((false, copy, ended), l1)
        | true ↦ elim (inside head ended l1) [
          | none ↦ ((false, copy, false), l1)
          | some ((exit, ended'), l2) ↦ ((false, copy, ended'), l2)
        ]
      ]

  -- `_deepcopy_handler`
  unfoldable pub deepcopy_handler : List ℕ → ℕ → Handler S Bool
  deepcopy_handler old zero ca i e ended l = ((false, e, false), l)
  deepcopy_handler old (suc fuel) ca i e ended l =
      adopt_clone (λ head c m. entry_iterate d fi (deepcopy_handler old fuel) old fuel head c m) e
        ended l (clone_chain fuel e.dca l.state)

  -- the entries of a directory that was copied
  unfoldable pub copy_entries : List ℕ → ℕ → ℕ → Logged S → Option (Bool × Logged S)
  copy_entries old fuel ca l =
      elim (entry_iterate d fi (deepcopy_handler old fuel) old fuel ca true l) [
        | none ↦ none
        | some ((exit, ended), l') ↦ if ended then some (exit, l') else none
      ]

module _ {S T : Type 0} (h : Host S T) (fi : FatData) where
  unfoldable pub copy_deep : List ℕ → ℤ → ℤ → M S T ℕ
  copy_deep buffer src dst = do
    dst_ca ← asks (λ w. get_content_data_ca dst w.table)
    src_ca ← asks (λ w. get_content_data_ca src w.table)
    copied ← bounded_state (copy_to h.driver fi buffer h.fuel src_ca dst_ca)
    kind ← asks (λ w. get_content_type src w.table)
    if not copied
        then pure 0
        else (if is_directory_type kind
            then (do done ← on_logged (copy_entries h.driver fi buffer h.old h.fuel dst_ca); pure 1)
            else pure 1)

  -- a name that is a null pointer is not found
  unfoldable pub find_name : Option (List ℕ) → ℕ → M S T (Bool × DirectoryEntry)
  find_name none root = pure (false, h.entry)
  find_name (some name) root = search_into h fi name root none h.entry

  -- `entry_search` without a tree, for the entry of an open content
  unfoldable pub find_entry : ℤ → M S T (Bool × DirectoryEntry)
  find_entry ci = do
    name ← asks (λ w. get_content_name ci w.table)
    root ← asks (λ w. get_content_root_ca ci w.table)
    find_name name root

  unfoldable pub free_chain : ℕ → M S T Bool
  free_chain ca = bounded_state (λ s.
      let (r, s') = dealloc_chain h.driver fi h.fuel ca s in
      elim r [ none ↦ none | some ok ↦ some (ok, s') ])

  -- the entry of the destination is replaced by that of the source
  unfoldable pub store_link : ℤ → ℤ → DirectoryEntry → M S T ℕ
  store_link src dst source = do
    root ← asks (λ w. get_content_root_ca dst w.table)
    name ← asks (λ w. get_content_name dst w.table)
    text ← given name
    edited ← on_trees (
        entry_edit h.driver fi h.index h.places h.old h.fuel root none text
          (sealed (record source { rca = root })))
    ca ← asks (λ w. get_content_data_ca src w.table)
    if edited
        then (do done ← on_table (set_content_data_ca dst ca); pure 1)
        else failed h fi entry_edit_error

  unfoldable pub copy_shallow : ℤ → ℤ → M S T ℕ
  copy_shallow src dst = do
    source ← find_entry src
    if not source.0 then failed h fi entry_search_error else (do
      destination ← find_entry dst
      if not destination.0 then failed h fi entry_search_error else (do
        freed ← free_chain destination.1.dca
        if not freed
            then failed h fi cluster_chain_deletion_error
            else store_link src dst source.1))

  unfoldable pub copy : List ℕ → ℤ → ℤ → ℕ → M S T ℕ
  copy buffer src dst deep =
      if deep == deep_copy
      then copy_deep buffer src dst
      else if deep == shallow_copy
      then copy_shallow src dst
      else failed h fi unknown_deep_type_error

  -- `NIFAT32_copy_content`
  unfoldable pub copy_content : List ℕ → ℤ → ℤ → ℕ → Api S T → Option (ℕ × Api S T)
  copy_content buffer src dst deep = locked 0 (copy buffer src dst deep)
