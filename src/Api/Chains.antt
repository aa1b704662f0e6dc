-- ===== src/Api/Chains.antt =====
-- nifat32.c: the clusters that are added to the chain of a content.
pub mod Links
use ni_fat.Base.{ℕ, zero, suc, ◌==◌, Bool, true, false, Option, none, some}
use ni_fat.State.{FatData, State, Driver}
use ni_fat.Errors.{register_error}
use ni_fat.Fat.{cluster_bad, cluster_end, write_fat_error, write_fat, read_fat}
use ni_fat.Cluster.{get_cluster_offset, alloc_cluster, dealloc_cluster}
use ni_fat.Entry.Growth.{allocated_cluster_bad_error, cluster_allocation_error}
use ni_fat.Api.Defs.{is_over}

abbrev pub set_cluster_end_error : ℕ
set_cluster_end_error = 11

module _ {S : Type 0} (d : Driver S) (fi : FatData) where
  -- an error is registered, and the cluster that was allocated is given back
  unfoldable pub give_up : ℕ → ℕ → State S → ℕ × State S
  give_up code nca s = (cluster_bad, (dealloc_cluster d fi nca (register_error d fi code s).1).1)

  unfoldable pub link_cluster : ℕ → ℕ → Bool × State S → ℕ × State S
  link_cluster hca nca (true, s) = (nca, s)
  link_cluster hca nca (false, s) = give_up write_fat_error nca s

  unfoldable pub end_chain : ℕ → ℕ → Bool × State S → ℕ × State S
  end_chain hca nca (true, s) = link_cluster hca nca (write_fat d fi hca nca s)
  end_chain hca nca (false, s) = give_up set_cluster_end_error nca s

  -- what `_add_cluster_to_chain` does with the cluster that it got
  unfoldable pub append_cluster : ℕ → ℕ × State S → ℕ × State S
  append_cluster hca (nca, s) = elim (nca == cluster_bad) [
    | true ↦ (cluster_bad, (register_error d fi allocated_cluster_bad_error s).1)
    | false ↦ end_chain hca nca (write_fat d fi nca cluster_end s)
  ]

  -- `alloc_cluster(&_fs_data, get_cluster_offset(&_fs_data))`
  unfoldable pub new_cluster : State S → ℕ × State S
  new_cluster s = let (offt, s1) = get_cluster_offset fi s in alloc_cluster d fi offt s1

  -- `_add_cluster_to_chain`
  unfoldable pub add_cluster_to_chain : ℕ → State S → ℕ × State S
  add_cluster_to_chain hca s = append_cluster hca (new_cluster s)

  -- The walk of `_add_cluster_to_content` to the last cluster, with `max_iterations` left: `none` is
  -- its error, which a walk that ends in its last round has as well.
  unfoldable pub last_cluster : ℕ → ℕ → ℕ → State S → Option ℕ × State S
  last_cluster zero lca ca s = (none, s)
  last_cluster (suc n) lca ca s =
      let (next, s1) = read_fat d fi ca s in
      elim (is_over ca) [ true ↦ (some lca, s) | false ↦ last_cluster n ca next s1 ]

  unfoldable pub add_behind : Option ℕ × State S → ℕ × State S
  add_behind (none, s) = (cluster_bad, (register_error d fi cluster_allocation_error s).1)
  add_behind (some lca, s) = add_cluster_to_chain lca s

  -- `_add_cluster_to_content` of a content whose first cluster is `first`
  unfoldable pub add_cluster_to_content : ℕ → ℕ → State S → ℕ × State S
  add_cluster_to_content first lca s = elim (lca == cluster_bad) [
    | true ↦ add_behind (last_cluster fi.total_clusters lca first s)
    | false ↦ add_cluster_to_chain lca s
  ]
