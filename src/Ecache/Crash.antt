-- ===== src/Ecache/Crash.antt =====
-- `ecache_delete` at the root of a tree of three nodes.
use ni_fat.Base.{ℕ, suc, ltb, ◌≡◌, refl, arith, true, false, none, some, [], ◌∷◌}
use ni_fat.Ecache.{
  Node, Tree, node_or, node_at, update, set_parent, set_left, set_right, set_black, is_same,
  is_null, replace_child, replace_right, rotate_right, is_red, from_right, ecache_find,
}
use ni_fat.Ecache.Delete.{
  Cut, minimum, transplant, counts_black, lift_sibling, fix_delete, cut_double, cut_node, repair,
  ecache_delete,
}

-- a black root with two red children, which hold anything
abbrev pub three : Node → Node → Node → Tree
three a b c = record {
  nodes =
      record a { parent = none; left = some 1; right = some 2; black = true }
      ∷ record b { parent = some 0; left = none; right = none; black = false }
      ∷ record c { parent = some 0; left = none; right = none; black = false }
      ∷ [];
  root = some 0;
}

module _ (a b c : Node) where
  abbrev cut : Cut
  cut = cut_double (some 0) (some 2) (three a b c)

  find_root :
      (fuel : ℕ) → ecache_find (suc fuel) (three a b c).nodes a.hash (some 0) ≡ some (some 0)
  unfolding ecache_find node_or
  find_root fuel = let same : ltb a.hash a.hash ≡ false = ground arith in rw same

  cut_run : (fuel : ℕ) → cut_node (suc fuel) (some 0) (three a b c) ≡ some cut
  unfolding cut_node minimum node_or node_at is_null
  cut_run fuel = refl

  repair_fault : (fuel : ℕ) → repair (suc fuel) cut ≡ some none
  unfolding node_or node_at update set_parent set_left set_right set_black is_same is_null
      replace_child transplant cut_double lift_sibling from_right is_red replace_right rotate_right
      counts_black fix_delete repair
  repair_fault fuel = refl

  -- Deleting the root of a tree of three nodes whose root is black and whose others are red makes
  -- `_fix_delete` follow the NULL of a sibling, whatever the nodes hold and however many rounds its
  -- loops may take, one at least: `ecache_delete` crashes.
  pub ecache_delete_fault : (fuel : ℕ) → ecache_delete (suc fuel) a.hash (three a b c) ≡ some none
  unfolding ecache_delete
  ecache_delete_fault fuel = rw (find_root fuel, cut_run fuel, repair_fault fuel, ecache_delete)
