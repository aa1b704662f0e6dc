-- ===== src/Formatter/Search.antt =====
-- formatter/nifat32formatter.c: the search for a free cluster, and the entries of a table.
use ni_fat.Base.{
  ℕ, zero, suc, ◌+◌, ◌-◌, ◌<◌, ◌≤◌, ◌==◌, ◌≡◌, ◌≢◌, ◌⊎◌, inl, inr, refl, ap, subst, arith, ==_iff,
  Bool-cases, Option-cases, List, [], ◌∷◌, length, get_or, set, none, some,
}
use ni_fat.Formatter.Files.{Volume, fat_entry_end, first_free, take_cluster}

pub get_or-set_self : (xs : List ℕ) (i v d : ℕ) → i < length xs → get_or (set xs i v) i d ≡ v
get_or-set_self [] i v d h = absurd (omega arith)
get_or-set_self (x ∷ xs) zero v d h = refl
get_or-set_self (x ∷ xs) (suc i) v d h = get_or-set_self xs i v d (omega arith)

pub get_or-set_ne : (xs : List ℕ) (i j v d : ℕ) → i ≢ j → get_or (set xs i v) j d ≡ get_or xs j d
get_or-set_ne [] i j v d h = refl
get_or-set_ne (x ∷ xs) zero zero v d h = absurd (h refl)
get_or-set_ne (x ∷ xs) zero (suc j) v d h = refl
get_or-set_ne (x ∷ xs) (suc i) zero v d h = refl
get_or-set_ne (x ∷ xs) (suc i) (suc j) v d h = get_or-set_ne xs i j v d (λ e. h (ap suc e))

-- the cluster that is found is free
first_free-finds :
    (n c : ℕ) (table : List ℕ) (x : ℕ)
    → first_free n c table ≡ some x
    → (c ≤ x) × (x < c + n) × (get_or table x 1 ≡ 0)
unfolding first_free
first_free-finds zero c table x = λ e. cc
first_free-finds (suc n) c table x = elim (Bool-cases (get_or table c 1 == 0)) [
  | inl free ↦
      rw (free, first_free)
        λ e.
          let same : c ≡ x = cc in
          let is_free : get_or table c 1 ≡ 0 = (==_iff (get_or table c 1) 0).0 free in
          (
            omega (arith, same),
            omega (arith, same),
            subst (λ (y : ℕ). get_or table y 1 ≡ 0) same is_free,
          )
  | inr used ↦
      rw (used, first_free)
        λ e.
          let (from, to, free) = first_free-finds n (c + 1) table x e in
          (omega (arith, from), omega (arith, to), free)
]

-- A search finds no cluster, or takes a free one.
pub take_cluster-cases :
    {S : Type 0} (tc : ℕ) (v : Volume S)
    → (take_cluster tc v ≡ none)
      ⊎ ((c : ℕ) × (v.last_alloc ≤ c)
          × (c < tc)
          × (get_or v.table c 1 ≡ 0)
          × (take_cluster tc v
              ≡ some (c, record v { table = set v.table c fat_entry_end; last_alloc = c + 1 })))
unfolding take_cluster
take_cluster-cases tc v =
    elim (Option-cases (first_free (tc - v.last_alloc) v.last_alloc v.table)) [
      | inl full ↦ inl (rw (full, take_cluster) refl)
      | inr (c, found) ↦
          let (from, to, free) =
            first_free-finds (tc - v.last_alloc) v.last_alloc v.table c found in
          inr (c, from, omega (arith, from, to), free, rw (found, take_cluster) refl)
    ]
