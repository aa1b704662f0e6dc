-- ===== src/Ecache/Delete.antt =====
-- src/ecache.c, `ecache_delete`.
use ni_fat.Base.{
  ℕ, zero, suc, if◌then◌else◌, Bool, true, false, not, ◌&&◌, ◌||◌, Option, none, some,
}
use ni_fat.Ecache.{
  Tree, node_at, set_parent, set_left, set_right, set_black, is_same, is_null, replace_child,
  is_red, Side, from_left, from_right, ecache_find,
}

-- `_minimum`; `none` is no end in `fuel` rounds
unfoldable pub minimum : ℕ → Tree → Option ℕ → Option (Option ℕ)
minimum zero t x = none
minimum (suc fuel) t x =
    let l = (node_at t x).left in let rest = minimum fuel t l in if is_null l then some x else rest

-- `_transplant`
unfoldable pub transplant : Option ℕ → Option ℕ → Tree → Tree
transplant u v t = let p = (node_at t u).parent in set_parent v p (replace_child u v t)

-- `!n || IS_ECACHE_BLACK(n)`
unfoldable pub counts_black : Tree → Option ℕ → Bool
counts_black t x = is_null x || (node_at t x).black

-- the sibling `w` of `x` is made black first
unfoldable pub lift_sibling : Side → Option ℕ → Tree → Option ℕ × Tree
lift_sibling side xp t =
    let w = side.far (node_at t xp) in
    let t' = side.rotate_near xp (set_black xp false (set_black w true t)) in
    if is_red t w then (side.far (node_at t' xp), t') else (w, t)

-- the last round, for a sibling `w` with a red child
unfoldable pub fix_sibling : Side → Option ℕ → Option ℕ → Tree → Tree
fix_sibling side xp w t =
    let inner = counts_black t (side.far (node_at t w)) in
    let turned =
      side.rotate_far w (set_black w false (set_black (side.near (node_at t w)) true t)) in
    let t1 = if inner then turned else t in
    let w1 = if inner then side.far (node_at turned xp) else w in
    let t2 = set_black xp true (set_black w1 (not (is_red t1 xp)) t1) in
    let t3 = if is_null w1 then t2 else set_black (side.far (node_at t2 w1)) true t2 in
    side.rotate_near xp t3

-- `_fix_delete`; `none` is no end in `fuel` rounds, `some none` a crash: a round follows the NULL of
-- `x_parent` or of a sibling `w`, whose flags and children it reads
unfoldable pub fix_delete : ℕ → Option ℕ → Option ℕ → Tree → Option (Option Tree)
fix_delete zero x xp t = none
fix_delete (suc fuel) x xp t =
    let side = if is_same x (node_at t xp).left then from_left else from_right in
    let (w, t1) = lift_sibling side xp t in
    let up = set_black w false t1 in
    let again = fix_delete fuel xp (node_at up xp).parent up in
    let last = fix_sibling side xp w t1 in
    let fault = is_null xp || (is_null (side.far (node_at t xp)) || is_null w) in
    if not (is_same x t.root) && counts_black t x
    then if fault
      then some none
      else (if counts_black t1 (node_at t1 w).left && counts_black t1 (node_at t1 w).right
          then again
          else some (some (set_black last.root true last)))
    else some (some (set_black x true t))

-- what is known when a node is out of the tree: the node `y` whose colour is tested, and where the
-- repair starts
pub record Cut : Type 0 where
  pub moved : Option ℕ
  pub start : Option ℕ
  pub above : Option ℕ
  pub tree : Tree

-- a node `z` with one child at most
unfoldable pub cut_single : Option ℕ → Option ℕ → Tree → Cut
cut_single z x t = record {
  moved = z;
  start = x;
  above = (node_at t z).parent;
  tree = transplant z x t;
}

-- a node `z` with two children, and the next node `y`
unfoldable pub cut_double : Option ℕ → Option ℕ → Tree → Cut
cut_double z y t =
    let x = (node_at t y).right in
    let below = is_same (node_at t y).parent z in
    let out = set_right y (node_at t z).right (transplant y x t) in
    let t1 = if below then set_parent x y t else set_parent (node_at out y).right y out in
    let xp = if below then y else (node_at t1 y).parent in
    let t2 = transplant z y t1 in
    let t3 = set_left y (node_at t2 z).left t2 in
    let t4 = set_parent (node_at t3 y).left y t3 in
    record { moved = y; start = x; above = xp; tree = set_black y (node_at t4 z).black t4 }

unfoldable pub cut_node : ℕ → Option ℕ → Tree → Option Cut
cut_node fuel z t =
    let n = node_at t z in
    if is_null n.left
    then some (cut_single z n.right t)
    else if is_null n.right
    then some (cut_single z n.left t)
    else elim (minimum fuel t n.right) [ none ↦ none | some y ↦ some (cut_double z y t) ]

-- the test of the colour, which is that of `y` after it took the colour of `z`
unfoldable pub repair : ℕ → Cut → Option (Option Tree)
repair fuel c =
    let t = c.tree in
    let fixed = fix_delete fuel c.start c.above t in
    if is_red t c.moved then some (some t) else fixed

-- `ecache_delete`; `none` is no end in `fuel` rounds, `some none` the crash of `_fix_delete`
unfoldable pub ecache_delete : ℕ → ℕ → Tree → Option (Option Tree)
ecache_delete fuel hash t = elim (ecache_find fuel t.nodes hash t.root) [
  | none ↦ none
  | some none ↦ some (some t)
  | some (some z) ↦ elim (cut_node fuel (some z) t) [ none ↦ none | some c ↦ repair fuel c ]
]
