-- ===== src/Entry/Cache.antt =====
-- The trees of src/ecache.c in the place of the parameters of src/entry.c and src/ctable.c. Where a
-- walk has no end in its fuel, or `_fix_delete` crashes on a NULL, the tree stays as it is; allocations
-- succeed.
use ni_fat.Base.{ℕ, ◌≤◌, ◌≡◌, ap, Bool, true, false, Option, none, some, List}
use ni_fat.State.{FatData, Driver}
use ni_fat.Ecache.{Node, Tree, node_or, ecache_find, ecache_insert}
use ni_fat.Ecache.Delete.{ecache_delete}
use ni_fat.Ecache.Search.{Shape, depth, Holds, IsOrdered, Found, ecache_find-Found}
use ni_fat.Journal.{Logged}
use ni_fat.Content.Access.{Trees}
use ni_fat.Entry.Operations.{
  Index, Meta, hash_of, cached_entry, meta_of, entry_index, search_with, entry_search,
}
use ni_fat.Base.{get_elem?}

unfoldable pub root_and_nodes : Option ℕ → List Node → Option Tree → Option ℕ × List Node
root_and_nodes root nodes none = (root, nodes)
root_and_nodes root nodes (some t) = (t.root, t.nodes)

-- what `ecache_find` found, as its callers read it
unfoldable pub hit_of : List Node → Option (Option ℕ) → Option (Bool × ℕ)
hit_of nodes none = none
hit_of nodes (some none) = none
hit_of nodes (some (some i)) = let n = node_or (get_elem? nodes i) in some (n.is_dir, n.ca)

unfoldable pub tree_index : ℕ → Index (List Node)
tree_index fuel = record {
  find = λ root hash nodes. hit_of nodes (ecache_find fuel nodes hash (some root));
  insert = λ root hash is_dir ca nodes.
      root_and_nodes root nodes
        (ecache_insert true false fuel hash is_dir ca (record { nodes = nodes; root = root }));
  delete = λ root hash nodes.
      root_and_nodes (some root) nodes
        (elim (ecache_delete fuel hash (record { nodes = nodes; root = some root })) [
          | none ↦ none
          | some t ↦ t
        ]);
}

module _ {S : Type 0} (d : Driver S) (fi : FatData) (old : List ℕ) (fuel : ℕ) where
  unfoldable pub indexed :
      Option ℕ
      → List Node × Logged S
      → Option ((Bool × Option ℕ × List Node) × Logged S)
      → Option ℕ × (List Node × Logged S)
  indexed root s none = (root, s)
  indexed root s (some ((exit, root', nodes), l)) = (root', (nodes, l))

  -- A freed tree keeps its nodes in the list.
  unfoldable pub tree_calls : Trees (List Node × Logged S)
  tree_calls = record {
    ecache_free = λ root s. s;
    entry_index =
        λ ca root s. indexed root s (entry_index d fi (tree_index fuel) old fuel ca root s.0 s.1);
  }

  module _ (name : List ℕ) (ca root : ℕ) (meta : Meta) (nodes : List Node) (t : Shape)
      (l : Logged S) where
    abbrev searched : Option ℕ → Option ((Bool × Meta) × Logged S)
    searched root' = entry_search d fi (tree_index fuel) old fuel name ca root' meta nodes l

    -- what a search does with what its tree says
    abbrev pub AnswersFrom : Option ℕ → Type 0
    AnswersFrom (some i) =
        let n = node_or (get_elem? nodes i) in
        searched (some root)
        ≡ some ((true, meta_of d fi (tree_index fuel) name (n.is_dir, n.ca) meta), l)
    AnswersFrom none = searched (some root) ≡ searched none

    answers_from :
        (q : Option ℕ) → ecache_find fuel nodes (hash_of name) (some root) ≡ some q → AnswersFrom q
    unfolding entry_search search_with cached_entry tree_index hit_of
    answers_from none e =
        ap (λ r. search_with d fi (tree_index fuel) old fuel name ca meta l (hit_of nodes r)) e
    answers_from (some i) e =
        ap (λ r. search_with d fi (tree_index fuel) old fuel name ca meta l (hit_of nodes r)) e

    -- `entry_search` with a tree whose hashes are in order answers with the node that has the hash of the
    -- name, and leaves the state as it is, or, when no node has it, answers as without the tree.
    pub entry_search-Found :
        Holds nodes (some root) t
        → IsOrdered t
        → depth t ≤ fuel
        → (q : Option ℕ) × Found (hash_of name) t q × AnswersFrom q
    entry_search-Found holds ordered enough =
        let (q, e, found) =
          ecache_find-Found nodes (hash_of name) fuel (some root) t holds ordered enough in
        (q, found, answers_from q e)
