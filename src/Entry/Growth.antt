-- ===== src/Entry/Growth.antt =====
-- src/entry.c, `entry_add`: the first entry of a directory that can be overwritten takes the new one; a
-- chain without such an entry gets a cluster more.
use ni_fat.Base.{
  ℕ, zero, suc, ◌*◌, ◌==◌, if◌then◌else◌, Bool, not, ◌||◌, List, [], ◌∷◌, ◌++◌, Option, none, some,
  drop, set,
}
use ni_fat.State.{FatData, Driver}
use ni_fat.Strings.{ℤ, pos, negsuc}
use ni_fat.Fat.{cluster_bad, cluster_end, read_fat, write_fat}
use ni_fat.Cluster.{get_cluster_offset, alloc_cluster}
use ni_fat.Layout.{DirectoryEntry, JournalEntry}
use ni_fat.Journal.{Logged, add_op, add_operation}
use ni_fat.Entry.{
  entry_sum, validate_entry, first_byte, is_file, entry_free, entry_end, entries_of, entries_bytes,
  entries_per_cluster, report, read_encoded_cluster, write_encoded_cluster,
}
use ni_fat.Entry.Operations.{Index, hash_of, learn, solve}

abbrev pub allocated_cluster_bad_error : ℕ
allocated_cluster_bad_error = 25

abbrev pub cluster_allocation_error : ℕ
cluster_allocation_error = 26

abbrev pub entry_add_error : ℕ
entry_add_error = 29

abbrev pub bad_cluster_in_chain_error : ℕ
bad_cluster_in_chain_error = 35

abbrev pub cluster_chain_append_error : ℕ
cluster_chain_append_error = 39

-- an entry that a new one may take the place of
unfoldable pub is_open : DirectoryEntry → Bool
is_open e = not (validate_entry e).0 || (first_byte e == entry_free || first_byte e == entry_end)

-- the entry as it is stored in a cluster; its checksum is over what the field held before
unfoldable pub seal : ℕ → DirectoryEntry → DirectoryEntry
seal ca meta =
    let placed : DirectoryEntry = record meta { rca = ca } in
    record placed { checksum = entry_sum placed }

-- the mark behind the new entry, if there is an entry behind it
unfoldable pub mark_end : List DirectoryEntry → List DirectoryEntry
mark_end [] = []
mark_end (e ∷ es) = record e { file_name = set e.file_name 0 entry_end } ∷ es

-- the loop over the entries of a cluster: the offset of the new entry, and the entries with it
unfoldable pub fill_slot : DirectoryEntry → List DirectoryEntry → Option (ℕ × List DirectoryEntry)
fill_slot new [] = none
fill_slot new (e ∷ es) =
    let later = fill_slot new es in
    if is_open e
    then some (0, new ∷ mark_end es)
    else elim later [ none ↦ none | some p ↦ some (suc p.0, e ∷ p.1) ]

module _ {S T : Type 0} (d : Driver S) (fi : FatData) (calls : Index T) where
  -- What a call leaves: its answer, the entry of the caller and the trees.
  abbrev pub Added : Type 0
  Added = (ℤ × DirectoryEntry × T) × Logged S

  -- what is done with the entries `es` of a cluster that has taken the entry at offset `i`
  unfoldable pub store_entry :
      (ℕ → JournalEntry)
      → ℕ
      → Option ℕ
      → DirectoryEntry
      → T
      → List ℕ
      → ℕ
      → List DirectoryEntry
      → Logged S
      → Added
  store_entry places ca root meta trees bytes i es l =
      let sealed = seal ca meta in
      let (ji, l1) = add_operation d fi places add_op ca i meta l in
      let trees' = learn calls root (hash_of meta.file_name) (is_file sealed) meta.dca trees in
      let n = entries_per_cluster fi in
      let (written, l2) =
        write_encoded_cluster d fi ca (entries_bytes es ++ drop (n * 32) bytes) l1 in
      if written
      then ((pos 1, sealed, trees'), solve d fi calls ji l2)
      else ((negsuc 5, sealed, trees'), report d fi entry_add_error l2)

  -- the new last cluster of a chain, behind `ca`
  unfoldable pub extend : ℕ → Logged S → Option ℕ × Logged S
  extend ca l =
      let (offt, s0) = get_cluster_offset fi l.state in
      let (nca, s1) = alloc_cluster d fi offt s0 in
      let (ended, s2) = write_fat d fi nca cluster_end s1 in
      let (linked, s3) = write_fat d fi ca nca s2 in
      if nca == cluster_bad
      then (none, report d fi cluster_allocation_error (record l { state = s1 }))
      else if not ended
      then (none, report d fi allocated_cluster_bad_error (record l { state = s2 }))
      else if not linked
      then (none, report d fi cluster_chain_append_error (record l { state = s3 }))
      else (some nca, record l { state = s3 })

  -- the cluster to go on with behind `ca`
  unfoldable pub next_cluster : ℕ → Logged S → Option ℕ × Logged S
  next_cluster ca l =
      let (nca, s) = read_fat d fi ca l.state in
      let l1 : Logged S = record l { state = s } in
      let longer = extend ca l1 in
      if nca == cluster_bad
      then (none, report d fi bad_cluster_in_chain_error l1)
      else if nca == cluster_end
      then longer
      else (some nca, l1)

  -- `entry_add`; `none` is no end in `fuel` rounds
  unfoldable pub entry_add :
      (ℕ → JournalEntry) → List ℕ → ℕ → ℕ → Option ℕ → DirectoryEntry → T → Logged S → Option Added
  entry_add places old zero ca root meta trees l = none
  entry_add places old (suc fuel) ca root meta trees l =
      let (got, l1) = read_encoded_cluster d fi ca old l in
      let (next, l2) = next_cluster ca l1 in
      elim got [
        | none ↦ some ((negsuc 0, meta, trees), l1)
        | some bytes ↦ elim (fill_slot (seal ca meta) (entries_of (entries_per_cluster fi) bytes)) [
          | some p ↦ some (store_entry places ca root meta trees bytes p.0 p.1 l1)
          | none ↦ elim next [
            | none ↦ some ((negsuc 0, meta, trees), l2)
            | some nca ↦
                let rest = entry_add places old fuel nca root meta trees l2 in
                if nca == cluster_end then some ((negsuc 0, meta, trees), l2) else rest
          ]
        ]
      ]
