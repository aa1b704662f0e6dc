-- ===== src/Api/Writing.antt =====
-- nifat32.c: NIFAT32_write_buffer2content and NIFAT32_truncate_content, in the build with writing.
-- Sizes are not negative, and a cluster has less than 2^31 bytes; a loop has its rounds as fuel.
pub mod Ends
pub mod Parts
pub mod Rounds
pub mod Loops
pub mod Stored
pub mod Kept
use ni_fat.Base.{
  ℕ, zero, suc, ◌+◌, ◌-◌, ◌==◌, leb, ltb, if◌then◌else◌, Bool, true, false, ◌||◌, List, drop,
  Option, none, some, u32,
}
use ni_fat.State.{FatData, State, Driver}
use ni_fat.Strings.{ℤ}
use ni_fat.Errors.{register_error}
use ni_fat.Fat.{cluster_bad, cluster_end, read_fat, write_fat}
use ni_fat.Cluster.{writeoff_cluster, dealloc_cluster}
use ni_fat.Content.Access.{
  get_content_mode, get_content_data_ca, get_content_root_ca, get_content_name,
}
use ni_fat.Entry.{create_entry}
use ni_fat.Entry.Operations.{entry_edit}
use ni_fat.Api.Defs.{
  Api, Host, M, ◌>>=◌, pure, given, asks, on_trees, put_state, is_write_mode, is_over, locked, note,
}
use ni_fat.Api.Chains.{add_cluster_to_content}
use ni_fat.Api.Reading.{readoff_cluster_error, portion, Moved, skipped, moved, broken}

abbrev pub no_write_access_error : ℕ
no_write_access_error = 16

-- what the first loop of a write leaves: the last cluster, the offset, the data and the sizes
pub record Progress : Type 0 where
  pub last : ℕ
  pub offset : ℕ
  pub left : List ℕ
  pub size : ℕ
  pub total : ℕ

-- What the loop of a truncation works on. `size` is the 32 bits of the signed size; FAT_CLUSTER_BAD
-- stands for no cluster.
pub record Cut : Type 0 where
  pub offset : ℕ
  pub size : ℕ
  pub start_ca : ℕ
  pub end_ca : ℕ

module _ {S : Type 0} (d : Driver S) (fi : FatData) where
  unfoldable pub write_part : ℕ → Bool × State S → Moved × State S
  write_part n (true, s) = (moved n, s)
  write_part n (false, s) = (broken, (register_error d fi readoff_cluster_error s).1)

  -- the body of the first loop, up to the step along the chain
  unfoldable pub write_step : ℕ → ℕ → List ℕ → ℕ → State S → Moved × State S
  write_step ca offset bytes size s = elim (ltb fi.cluster_size offset) [
    | true ↦ (skipped fi offset, s)
    | false ↦
        let n = portion fi offset size in write_part n (writeoff_cluster d fi ca offset bytes n s)
  ]

  -- The first loop, over the clusters that the content has. `bytes` is the data from `total_written` on.
  unfoldable pub write_loop :
      ℕ → ℕ → ℕ → List ℕ → ℕ → ℕ → State S → Option (Option Progress × State S)
  write_loop zero ca offset bytes size total s = none
  write_loop (suc fuel) ca offset bytes size total s =
      let (m, s1) = write_step ca offset bytes size s in
      let (next, s2) = read_fat d fi ca s1 in
      let p : Progress = record {
        last = ca;
        offset = m.offset;
        left = drop m.count bytes;
        size = size - m.count;
        total = total + m.count;
      } in
      elim m.fine [
        | false ↦ some (none, s1)
        | true ↦ elim (is_over next || p.size == 0) [
          | true ↦ some (some p, s2)
          | false ↦ write_loop fuel next p.offset p.left p.size p.total s2
        ]
      ]

  -- the body of the second loop, which does not look at the outcome of its transfer
  unfoldable pub extend_step : ℕ → ℕ → List ℕ → ℕ → State S → Moved × State S
  extend_step ca offset bytes size s = elim (ltb fi.cluster_size offset) [
    | true ↦ (skipped fi offset, s)
    | false ↦
        let n = portion fi offset size in (moved n, (writeoff_cluster d fi ca offset bytes n s).1)
  ]

  -- The second loop, over clusters that are added to the content: the total.
  unfoldable pub extend_loop : ℕ → ℕ → Progress → State S → Option (ℕ × State S)
  extend_loop zero first p s = none
  extend_loop (suc fuel) first p s =
      let (ca, s1) = add_cluster_to_content d fi first p.last s in
      let (m, s2) = extend_step ca p.offset p.left p.size s1 in
      let p' : Progress = record {
        last = ca;
        offset = m.offset;
        left = drop m.count p.left;
        size = p.size - m.count;
        total = p.total + m.count;
      } in
      elim (p.size == 0) [
        | true ↦ some (p.total, s)
        | false ↦ elim (ca == cluster_bad) [
          | true ↦ some (p.total, s1)
          | false ↦ extend_loop fuel first p' s2
        ]
      ]

  -- both loops; after an error, 0 is returned
  unfoldable pub write_on : ℕ → ℕ → Option (Option Progress × State S) → Option (ℕ × State S)
  write_on fuel first none = none
  write_on fuel first (some (none, s)) = some (0, s)
  write_on fuel first (some (some p, s)) = extend_loop fuel first p s

  unfoldable pub write_chain : ℕ → ℕ → ℕ → List ℕ → ℕ → State S → Option (ℕ × State S)
  write_chain fuel ca offset bytes size s =
      write_on fuel ca (write_loop fuel ca offset bytes size 0 s)

  -- the size after a cluster was kept, and whether it is negative
  unfoldable pub less_cluster : ℕ → ℕ
  less_cluster size = u32 (size + 0x100000000 - fi.cluster_size)

  unfoldable pub is_negative : ℕ → Bool
  is_negative size = leb 0x80000000 size

  -- a cluster that is kept, which may be the last
  unfoldable pub keep_cluster : ℕ → Cut → State S → Cut × State S
  keep_cluster ca c s =
      let size = less_cluster c.size in
      let start = if c.start_ca == cluster_bad then ca else c.start_ca in
      let kept : Cut = record c { size = size; start_ca = start } in
      let (ended, s1) = write_fat d fi ca cluster_end s in
      elim (is_negative size) [
        | false ↦ (kept, s)
        | true ↦ ((if ended then record kept { end_ca = ca } else kept), s1)
      ]

  unfoldable pub drop_cluster : ℕ → Cut → State S → Cut × State S
  drop_cluster ca c s = (c, (dealloc_cluster d fi ca s).1)

  -- the body of the loop
  unfoldable pub cut_step : ℕ → Cut → State S → Cut × State S
  cut_step ca c s = elim (c.end_ca == cluster_bad) [
    | false ↦ drop_cluster ca c s
    | true ↦ elim (ltb fi.cluster_size c.offset) [
      | true ↦ drop_cluster ca (record c { offset = c.offset - fi.cluster_size }) s
      | false ↦ keep_cluster ca c s
    ]
  ]

  unfoldable pub cut_loop : ℕ → ℕ → Cut → State S → Option (Cut × State S)
  cut_loop zero ca c s = none
  cut_loop (suc fuel) ca c s =
      let (c', s1) = cut_step ca c s in
      let (next, s2) = read_fat d fi ca s1 in
      elim (is_over next) [ true ↦ some (c', s2) | false ↦ cut_loop fuel next c' s2 ]

module _ {S T : Type 0} (h : Host S T) (fi : FatData) where
  unfoldable pub write_content : ℤ → ℕ → List ℕ → ℕ → M S T ℕ
  write_content ci offset bytes size w =
      let s = w.logged.state in
      elim (is_write_mode (get_content_mode ci w.table)) [
        | false ↦ some (put_state w (0, note h fi no_write_access_error s))
        | true ↦
            elim (write_chain h.driver fi h.fuel (get_content_data_ca ci w.table) offset bytes size
              s) [ none ↦ none | some r ↦ some (put_state w r) ]
      ]

  -- `NIFAT32_write_buffer2content`
  unfoldable pub write_buffer2content : ℤ → ℕ → List ℕ → ℕ → Api S T → Option (ℕ × Api S T)
  write_buffer2content ci offset bytes size = locked 0 (write_content ci offset bytes size)

  -- the entry after a truncation, whose outcome is not looked at
  unfoldable pub store_cut : ℤ → ℕ → ℕ → M S T ℕ
  store_cut ci start size = do
    name ← asks (λ w. get_content_name ci w.table)
    text ← given name
    root ← asks (λ w. get_content_root_ca ci w.table)
    done ← on_trees (
        entry_edit h.driver fi h.index h.places h.old h.fuel root none text
          (create_entry text false start size h.entry))
    pure 1

  unfoldable pub truncate : ℤ → ℕ → ℕ → M S T ℕ
  truncate ci offset size w =
      let s = w.logged.state in
      let start : Cut = record {
        offset = offset;
        size = size;
        start_ca = cluster_bad;
        end_ca = cluster_bad;
      } in
      elim (is_write_mode (get_content_mode ci w.table)) [
        | false ↦ some (put_state w (0, note h fi no_write_access_error s))
        | true ↦ elim (cut_loop h.driver fi h.fuel (get_content_data_ca ci w.table) start s) [
          | none ↦ none
          | some (c, s') ↦ store_cut ci c.start_ca size (put_state w (tt, s')).1
        ]
      ]

  -- `NIFAT32_truncate_content`
  unfoldable pub truncate_content : ℤ → ℕ → ℕ → Api S T → Option (ℕ × Api S T)
  truncate_content ci offset size = locked 0 (truncate ci offset size)
