-- ===== src/Ecache.antt =====
-- src/ecache.c: a red-black tree of name hashes, over nodes that point to their parents and children.
-- A pointer is the place of a node in the list of all nodes that were allocated, NULL is `none`; a
-- node that is freed stays in the list. `_fix_delete` says where it crashes on a NULL; elsewhere
-- NULL reads as `no_node`, and a write through it is lost. Loops have fuel.
pub mod Delete
pub mod Crash
pub mod Search
use ni_fat.Base.{
  ℕ, zero, suc, ◌==◌, ltb, if◌then◌else◌, Bool, true, false, not, ◌&&◌, ◌||◌, List, [], ◌∷◌, ◌++◌,
  length, Option, none, some, get_elem?, set,
}

-- `ecache_t`; of its flags, the colour and whether it is a directory
pub record Node : Type 0 where
  pub parent : Option ℕ
  pub left : Option ℕ
  pub right : Option ℕ
  pub black : Bool
  pub is_dir : Bool
  pub hash : ℕ
  pub ca : ℕ

abbrev pub no_node : Node
no_node = record {
  parent = none;
  left = none;
  right = none;
  black = false;
  is_dir = false;
  hash = 0;
  ca = 0;
}

-- the nodes, and the variable `root`
pub record Tree : Type 0 where
  pub nodes : List Node
  pub root : Option ℕ

unfoldable pub node_or : Option Node → Node
node_or none = no_node
node_or (some n) = n

unfoldable pub node_at : Tree → Option ℕ → Node
node_at t none = no_node
node_at t (some i) = node_or (get_elem? t.nodes i)

unfoldable pub update : Option ℕ → (Node → Node) → Tree → Tree
update none f t = t
update (some i) f t = record t { nodes = set t.nodes i (f (node_at t (some i))) }

unfoldable pub set_parent : Option ℕ → Option ℕ → Tree → Tree
set_parent x p t = update x (λ n. record n { parent = p }) t

unfoldable pub set_left : Option ℕ → Option ℕ → Tree → Tree
set_left x l t = update x (λ n. record n { left = l }) t

unfoldable pub set_right : Option ℕ → Option ℕ → Tree → Tree
set_right x r t = update x (λ n. record n { right = r }) t

unfoldable pub set_black : Option ℕ → Bool → Tree → Tree
set_black x b t = update x (λ n. record n { black = b }) t

unfoldable pub is_same : Option ℕ → Option ℕ → Bool
is_same none none = true
is_same none (some j) = false
is_same (some i) none = false
is_same (some i) (some j) = i == j

unfoldable pub is_null : Option ℕ → Bool
is_null none = true
is_null (some i) = false

-- the place of `x` below its parent, or the root, gets `y`
unfoldable pub replace_child : Option ℕ → Option ℕ → Tree → Tree
replace_child x y t =
    let p = (node_at t x).parent in
    if is_null p
    then record t { root = y }
    else if is_same x (node_at t p).left
    then set_left p y t
    else set_right p y t

-- the same with the test of `_rotate_right`
unfoldable pub replace_right : Option ℕ → Option ℕ → Tree → Tree
replace_right x y t =
    let p = (node_at t x).parent in
    if is_null p
    then record t { root = y }
    else if is_same x (node_at t p).right
    then set_right p y t
    else set_left p y t

-- `_rotate_left`
unfoldable pub rotate_left : Option ℕ → Tree → Tree
rotate_left x t =
    let y = (node_at t x).right in
    let t1 = set_right x (node_at t y).left t in
    let t2 = set_parent (node_at t1 y).left x t1 in
    let t3 = set_parent y (node_at t2 x).parent t2 in
    set_parent x y (set_left y x (replace_child x y t3))

-- `_rotate_right`
unfoldable pub rotate_right : Option ℕ → Tree → Tree
rotate_right x t =
    let y = (node_at t x).left in
    let t1 = set_left x (node_at t y).right t in
    let t2 = set_parent (node_at t1 y).right x t1 in
    let t3 = set_parent y (node_at t2 x).parent t2 in
    set_parent x y (set_right y x (replace_right x y t3))

unfoldable pub is_red : Tree → Option ℕ → Bool
is_red t x = not (node_at t x).black

-- the two sides of `_fix_insert` and `_fix_delete`
pub record Side : Type 0 where
  pub near : Node → Option ℕ
  pub far : Node → Option ℕ
  pub rotate_near : Option ℕ → Tree → Tree
  pub rotate_far : Option ℕ → Tree → Tree

unfoldable pub from_left : Side
from_left = record {
  near = λ n. n.left;
  far = λ n. n.right;
  rotate_near = rotate_left;
  rotate_far = rotate_right;
}

unfoldable pub from_right : Side
from_right = record {
  near = λ n. n.right;
  far = λ n. n.left;
  rotate_near = rotate_right;
  rotate_far = rotate_left;
}

-- a round of the loop of `_fix_insert` below `gp`, on one side of it: the next `z`
unfoldable pub fix_insert_round : Side → Option ℕ → Option ℕ → Tree → Option ℕ × Tree
fix_insert_round side gp z t =
    let p = (node_at t z).parent in
    let y = side.far (node_at t gp) in
    let inner = is_same z (side.far (node_at t p)) in
    let z' = if inner then p else z in
    let t1 = if inner then side.rotate_near p t else t in
    let t2 = set_black gp false (set_black (node_at t1 z').parent true t1) in
    if not (is_null y) && is_red t y
    then (gp, set_black gp false (set_black y true (set_black p true t)))
    else (z', side.rotate_far gp t2)

-- `_fix_insert`; `none` is no end in `fuel` rounds
unfoldable pub fix_insert : ℕ → Option ℕ → Tree → Option Tree
fix_insert zero z t = none
fix_insert (suc fuel) z t =
    let p = (node_at t z).parent in
    let gp = (node_at t p).parent in
    let side = if is_same p (node_at t gp).left then from_left else from_right in
    let (z', t') = fix_insert_round side gp z t in
    let again = fix_insert fuel z' t' in
    if not (is_null p) && is_red t p then again else some (set_black t.root true t)

-- `ecache_find` from `x` on; the outer `none` is no end in `fuel` rounds
unfoldable pub ecache_find : ℕ → List Node → ℕ → Option ℕ → Option (Option ℕ)
ecache_find fuel nodes hash none = some none
ecache_find zero nodes hash (some i) = none
ecache_find (suc fuel) nodes hash (some i) =
    let n = node_or (get_elem? nodes i) in
    let left = ecache_find fuel nodes hash n.left in
    let right = ecache_find fuel nodes hash n.right in
    if ltb hash n.hash then left else if ltb n.hash hash then right else some (some i)

-- The walk of `ecache_insert` from `x` on, whose parent is `y`: the place below which the new node
-- goes, or that the hash is there.
pub data Place : Type 0 where
  below : Option ℕ → Place
  present : Place

unfoldable pub find_parent : ℕ → List Node → ℕ → Option ℕ → Option ℕ → Option Place
find_parent fuel nodes hash y none = some (below y)
find_parent zero nodes hash y (some i) = none
find_parent (suc fuel) nodes hash y (some i) =
    let n = node_or (get_elem? nodes i) in
    let left = find_parent fuel nodes hash (some i) n.left in
    let right = find_parent fuel nodes hash (some i) n.right in
    if ltb hash n.hash then left else if ltb n.hash hash then right else some present

-- `ecache_insert`, where `allocated` is whether there is memory for a node and `residue` the flag that
-- this memory holds, which is set for a directory and never cleared; gives the tree with the root that
-- is returned.
unfoldable pub ecache_insert : Bool → Bool → ℕ → ℕ → Bool → ℕ → Tree → Option Tree
ecache_insert allocated residue fuel hash is_dir ca t =
    let z = some (length t.nodes) in
    let fresh : Node = record {
      parent = none;
      left = none;
      right = none;
      black = false;
      is_dir = is_dir || residue;
      hash = hash;
      ca = ca;
    } in
    let t1 : Tree = record t { nodes = t.nodes ++ (fresh ∷ []) } in
    if not allocated then some t else elim (find_parent fuel t.nodes hash none t.root) [
      | none ↦ none
      | some present ↦ some t1
      | some (below y) ↦
          let t2 = set_parent z y t1 in
          let t3 : Tree =
            (if is_null y
              then record t2 { root = z }
              else if ltb hash (node_at t2 y).hash
              then set_left y z t2
              else set_right y z t2) in
          fix_insert fuel z t3
    ]

-- `ecache_free`: the nodes that are given back, in order
unfoldable pub ecache_free : ℕ → List Node → Option ℕ → List ℕ
ecache_free fuel nodes none = []
ecache_free zero nodes (some i) = []
ecache_free (suc fuel) nodes (some i) =
    let n = node_or (get_elem? nodes i) in
    ecache_free fuel nodes n.left ++ (ecache_free fuel nodes n.right ++ (i ∷ []))
