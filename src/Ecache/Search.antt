-- ===== src/Ecache/Search.antt =====
-- `ecache_find` against the tree that its nodes hold.
use ni_fat.Base.{
  ℕ, zero, suc, ◌+◌, ◌<◌, ◌≤◌, ◌≡◌, ◌≢◌, refl, sym, arith, false, Bool-cases, inl, inr, ltb, ltb→lt,
  List, Option, none, some, get_elem?, ◌⊎◌, subst,
}
use ni_fat.Ecache.{Node, node_or, ecache_find}

-- a tree without pointers, whose nodes stand at their places
pub data Shape : Type 0 where
  leaf : Shape
  branch : Shape → ℕ → Node → Shape → Shape

unfoldable pub depth : Shape → ℕ
depth leaf = 0
depth (branch l i n r) = suc (depth l + depth r)

-- the nodes hold the tree from a pointer on
unfoldable pub Holds : List Node → Option ℕ → Shape → Type 0
Holds nodes p leaf = p ≡ none
Holds nodes p (branch l i n r) =
    (p ≡ some i) × (get_elem? nodes i ≡ some n) × Holds nodes n.left l × Holds nodes n.right r

-- every node of a tree
unfoldable pub Each {ℓ} : (ℕ → Node → Type ℓ) → Shape → Type ℓ
Each P leaf = Unit
Each P (branch l i n r) = Each P l × P i n × Each P r

-- hashes to the left are less, hashes to the right more
unfoldable pub IsOrdered : Shape → Type 0
IsOrdered leaf = Unit
IsOrdered (branch l i n r) =
    IsOrdered l × IsOrdered r × Each (λ j m. m.hash < n.hash) l × Each (λ j m. n.hash < m.hash) r

-- the node at `i` is in a tree, with a hash
unfoldable pub Among : ℕ → ℕ → Shape → Type 0
Among hash i leaf = ⊥
Among hash i (branch l j n r) = ((i ≡ j) × (n.hash ≡ hash)) ⊎ (Among hash i l ⊎ Among hash i r)

-- what an answer of the search means
unfoldable pub Found : ℕ → Shape → Option ℕ → Type 0
Found hash t none = Each (λ j m. m.hash ≢ hash) t
Found hash t (some i) = Among hash i t

Each-map {ℓ κ} :
    (P : ℕ → Node → Type ℓ) (Q : ℕ → Node → Type κ)
    → ((j : ℕ) (m : Node) → P j m → Q j m)
    → (t : Shape) → Each P t
    → Each Q t
unfolding Each
Each-map P Q f leaf h = tt
Each-map P Q f (branch l i n r) h = (Each-map P Q f l h.0, f i n h.1, Each-map P Q f r h.2)

-- the node at the top and its two sides, when a side is searched
Found-left :
    (hash i : ℕ) (n : Node) (l r : Shape) (q : Option ℕ)
    → hash < n.hash
    → Each (λ j m. n.hash < m.hash) r
    → Found hash l q
    → Found hash (branch l i n r) q
unfolding Found Each Among
Found-left hash i n l r none less above found = (
  found,
  (λ e. absurd (omega (arith, less, e))),
  Each-map _ _ (λ j m more e. absurd (omega (arith, less, more, e))) r above,
)
Found-left hash i n l r (some k) less above found = inr (inl found)

Found-right :
    (hash i : ℕ) (n : Node) (l r : Shape) (q : Option ℕ)
    → n.hash < hash
    → Each (λ j m. m.hash < n.hash) l
    → Found hash r q
    → Found hash (branch l i n r) q
unfolding Found Each Among
Found-right hash i n l r none more below found = (
  Each-map _ _ (λ j m less e. absurd (omega (arith, less, more, e))) l below,
  (λ e. absurd (omega (arith, more, e))),
  found,
)
Found-right hash i n l r (some k) more below found = inr (inr found)

-- the result of a search
abbrev pub Answers : List Node → ℕ → ℕ → Option ℕ → Shape → Type 0
Answers nodes fuel hash p t =
    (q : Option ℕ) × (ecache_find fuel nodes hash p ≡ some q) × Found hash t q

ltb_eq : (a b : ℕ) → ltb a b ≡ false → ltb b a ≡ false → b ≡ a
ltb_eq a b h k = ground arith

equal_here :
    (hash i : ℕ) (n : Node) (l r : Shape)
    → ltb hash n.hash ≡ false
    → ltb n.hash hash ≡ false
    → Found hash (branch l i n r) (some i)
unfolding Found Among
equal_here hash i n l r not_less not_more = inl (refl, ltb_eq hash n.hash not_less not_more)

no_answer : (nodes : List Node) (fuel hash : ℕ) → Answers nodes fuel hash none leaf
unfolding ecache_find Found Each
no_answer nodes zero hash = (none, refl, tt)
no_answer nodes (suc fuel) hash = (none, refl, tt)

node-Answers :
    (nodes : List Node) (fuel hash i : ℕ) (n : Node) (l r : Shape)
    → get_elem? nodes i ≡ some n
    → IsOrdered (branch l i n r)
    → Answers nodes fuel hash n.left l
    → Answers nodes fuel hash n.right r
    → Answers nodes (suc fuel) hash (some i) (branch l i n r)
unfolding ecache_find node_or IsOrdered
node-Answers nodes fuel hash i n l r here ordered (q, e, f) (q', e', f') =
    elim (Bool-cases (ltb hash n.hash)) [
      | inl less ↦
          rw here (rw less (q, e, Found-left hash i n l r q (ltb→lt hash n.hash less) ordered.3 f))
      | inr not_less ↦ elim (Bool-cases (ltb n.hash hash)) [
        | inl more ↦ rw here (
            rw not_less (
              rw more (q', e', Found-right hash i n l r q' (ltb→lt n.hash hash more) ordered.2 f')))
        | inr not_more ↦
            rw here
              (rw not_less (rw not_more (some i, refl, equal_here hash i n l r not_less not_more)))
      ]
    ]

-- `ecache_find` ends for any fuel of at least the nodes of the tree, and answers with a node of the
-- tree that has the hash, or with NULL, when no node has it, in a tree whose hashes are in order.
pub ecache_find-Found :
    (nodes : List Node) (hash fuel : ℕ) (p : Option ℕ) (t : Shape)
    → Holds nodes p t
    → IsOrdered t
    → depth t ≤ fuel
    → Answers nodes fuel hash p t
unfolding Holds IsOrdered depth
ecache_find-Found nodes hash fuel p leaf holds ordered enough =
    subst (λ (x : Option ℕ). Answers nodes fuel hash x leaf) (sym holds) (no_answer nodes fuel hash)
ecache_find-Found nodes hash zero p (branch l i n r) holds ordered enough =
    absurd (omega (arith, enough))
ecache_find-Found nodes hash (suc fuel) p (branch l i n r) holds ordered enough =
    subst (λ (x : Option ℕ). Answers nodes (suc fuel) hash x (branch l i n r)) (sym holds.0)
      (node-Answers nodes fuel hash i n l r holds.1 ordered
        (ecache_find-Found nodes hash fuel n.left l holds.2 ordered.0 (omega (arith, enough)))
        (ecache_find-Found nodes hash fuel n.right r holds.3 ordered.1 (omega (arith, enough))))
