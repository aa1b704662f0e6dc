-- ===== src/Tests/Trees.antt =====
-- The tree of names with three hashes.
use ni_fat.Base.{ℕ, ◌≡◌, refl, arith, true, false, Option, none, some, []}
use ni_fat.Base.{List, replicate}
use ni_fat.Ecache.Search.{Found}
use ni_fat.State.{ready}
use ni_fat.Threading.{null_lock}
use ni_fat.Journal.{Logged}
use ni_fat.Entry.Operations.{hash_of}
use ni_fat.Entry.Cache.{AnswersFrom, entry_search-Found}
use ni_fat.Tests.Device.{Store, memory, volume, blank}
use ni_fat.Ecache.{
  Node, no_node, Tree, node_or, node_at, update, set_parent, set_left, set_right, set_black,
  is_same, is_null, is_red, fix_insert, fix_insert_round, find_parent, ecache_insert, from_left,
  from_right,
}
use ni_fat.Ecache.Delete.{ecache_delete}
use ni_fat.Ecache.Crash.{three, ecache_delete_fault}
use ni_fat.Ecache.Search.{
  Shape, leaf, branch, depth, Holds, Each, IsOrdered, Answers, ecache_find-Found,
}

-- the eleven bytes of a name
abbrev name : List ℕ
name = replicate 11 65

abbrev hashed : ℕ → Node
hashed h = record no_node { hash = h; ca = h }

-- the tree after the hashes 2, 1 and 4 were inserted
abbrev built : Tree
built = three (hashed 2) (hashed 1) (hashed 4)

abbrev grown : ℕ → Option Tree → Option Tree
grown h none = none
grown h (some t) = ecache_insert true false 9 h false h t

insert_run : grown 4 (grown 1 (grown 2 (some (record { nodes = []; root = none })))) ≡ some built
unfolding ecache_insert find_parent node_or node_at update set_parent set_left set_right set_black
    is_same is_null is_red fix_insert fix_insert_round from_left from_right
insert_run = refl

ecache_delete_fault_example : ecache_delete 9 2 built ≡ some none
ecache_delete_fault_example = ecache_delete_fault (hashed 2) (hashed 1) (hashed 4) 8

abbrev shape : Shape
shape =
    branch (branch leaf 1 (record (hashed 1) { parent = some 0 }) leaf) 0
      (record (hashed 2) { left = some 1; right = some 2; black = true })
      (branch leaf 2 (record (hashed 4) { parent = some 0 }) leaf)

holds : Holds built.nodes (some 0) shape
unfolding Holds
holds = (refl, refl, (refl, refl, refl, refl), (refl, refl, refl, refl))

ordered : IsOrdered shape
unfolding IsOrdered Each
ordered = ((tt, tt, tt, tt), (tt, tt, tt, tt), (tt, omega arith, tt), (tt, omega arith, tt))

ecache_find-Found_example : Answers built.nodes 5 4 (some 0) shape
ecache_find-Found_example =
    ecache_find-Found built.nodes 4 5 (some 0) shape holds ordered (unfold depth in omega arith)

abbrev settled : Logged Store
settled = record { state = ready blank; index = 0; lock = null_lock }

entry_search-Found_example :
    (q : Option ℕ) × Found (hash_of name) shape q
    × AnswersFrom memory volume [] 5 name 5 0 none built.nodes shape settled q
entry_search-Found_example =
    entry_search-Found memory volume [] 5 name 5 0 none built.nodes shape settled holds ordered
      (unfold depth in omega arith)
