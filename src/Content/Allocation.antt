-- ===== src/Content/Allocation.antt =====
-- Which entries `alloc_ci` and `ctable_destroy` change.
use ni_fat.Base.{
  ℕ, zero, suc, ◌+◌, ◌<◌, ◌≡◌, refl, sym, ap, subst, ◌∙◌, arith, true, false, Bool-cases, inl, inr,
  lt→ltb, List, [], ◌∷◌, Option, none, some, Option-cases, get_elem?, set, take, All, length,
  length-set, get_elem?-set_self, get_elem?-set_ne, ==_iff, ==→ne, ◌==◌,
}
use mathlib.Core.Option.{none-ne-some}
use ni_fat.Strings.{ℤ, pos, negsuc}
use ni_fat.Threading.{
  null_lock, thread_num, lock_pack, require_write, release_write, attempts, try_write,
  try_release_write,
}
use ni_fat.Content.{
  content_table_size, is_empty, Content, Table, take_content_lock, drop_content_lock, init_content,
  take_empty, allocate, alloc_ci, edit_content, clear_content, in_table,
}
use ni_fat.Content.Access.{
  Trees, free_tree, clear_entry, destroy_entry, destroy_content, destroy_from, ctable_destroy,
}

-- a table that no thread has locked
abbrev pub open_table : {T : Type 0} → List Content → T → Table T
open_table contents trees = record { contents = contents; lock = null_lock; trees = trees }

abbrev pub InUse : Content → Type 0
InUse c = is_empty c.content_type ≡ false

abbrev pub IsFree : Content → Type 0
IsFree c = is_empty c.content_type ≡ true

-- what taking an entry means: it is the first free one
abbrev pub Taken : List Content → ℕ → List Content → Type 0
Taken contents n later =
    (c : Content) × (get_elem? contents n ≡ some c)
    × IsFree c
    × All InUse (take n contents)
    × (later ≡ set contents n (init_content c))

TakeResult : List Content → Option (ℕ × List Content) → Type 0
TakeResult contents none = All InUse contents
TakeResult contents (some p) = Taken contents p.0 p.1

take_later :
    (c : Content) (cs : List Content)
    → InUse c
    → (o : Option (ℕ × List Content)) → TakeResult cs o
    → TakeResult (c ∷ cs) (elim o [ none ↦ none | some p ↦ some (suc p.0, c ∷ p.1) ])
unfolding TakeResult
take_later c cs in_use none r = (in_use, r)
take_later c cs in_use (some p) (e, here, free, before, later) =
    (e, here, free, (in_use, before), ap (λ r. c ∷ r) later)

take_empty-TakeResult : (contents : List Content) → TakeResult contents (take_empty contents)
unfolding TakeResult take_empty
take_empty-TakeResult [] = tt
take_empty-TakeResult (c ∷ cs) = elim (Bool-cases (is_empty c.content_type)) [
  | inl free ↦ rw free (c, refl, free, tt, refl)
  | inr in_use ↦ rw in_use (take_later c cs in_use (take_empty cs) (take_empty-TakeResult cs))
]

-- the contract of `alloc_ci`
pub AllocResult : {T : Type 0} → List Content → T → ℤ × Table T → Type 0
AllocResult contents trees (pos n, t) =
    Taken contents n t.contents × (t.trees ≡ trees) × (t.lock ≡ null_lock)
AllocResult contents trees (negsuc n, t) = All InUse contents × (t ≡ open_table contents trees)

allocated :
    {T : Type 0} (contents : List Content) (trees : T) (o : Option (ℕ × List Content))
    → TakeResult contents o
    → AllocResult contents trees (
        allocate o
          (record { contents = contents; lock = lock_pack 0 true thread_num; trees = trees }))
unfolding TakeResult AllocResult allocate drop_content_lock release_write attempts try_release_write
allocated contents trees none r = (r, refl)
allocated contents trees (some p) r = (r, refl, refl)

-- With the lock free, `alloc_ci` takes the first empty entry and no other into use, or answers -1 and
-- leaves the table as it is, when every entry is in use; the lock is free again.
pub alloc_ci-fulfils :
    {T : Type 0} (contents : List Content) (trees : T)
    → AllocResult contents trees (alloc_ci (open_table contents trees))
unfolding alloc_ci take_content_lock require_write attempts try_write
alloc_ci-fulfils contents trees =
    allocated contents trees (take_empty contents) (take_empty-TakeResult contents)

abbrev pub FreeAt : Option Content → Type 0
FreeAt none = Unit
FreeAt (some c) = IsFree c

-- all entries before `n` are free
abbrev pub FreeBelow : ℕ → List Content → Type 0
FreeBelow n contents = (j : ℕ) → j < n → FreeAt (get_elem? contents j)

-- the entry at `n` is free as well
FreeBelow-suc :
    (n : ℕ) (contents : List Content)
    → FreeBelow n contents
    → FreeAt (get_elem? contents n)
    → FreeBelow (suc n) contents
FreeBelow-suc n contents before here j below = elim (Bool-cases (j == n)) [
  | inl same ↦ subst (λ k. FreeAt (get_elem? contents k)) (sym ((==_iff j n).0 same)) here
  | inr other ↦ before j (omega (arith, ==→ne other))
]

FreeBelow-set :
    (n : ℕ) (contents : List Content) (c : Content)
    → FreeBelow n contents
    → FreeBelow n (set contents n c)
FreeBelow-set n contents c before j below =
    subst FreeAt (sym (get_elem?-set_ne contents c (λ e. absurd (omega (arith, e, below)))))
      (before j below)

get_elem?-lt :
    (contents : List Content) (n : ℕ) (c : Content)
    → get_elem? contents n ≡ some c
    → n < length contents
get_elem?-lt [] n c e = absurd (none-ne-some c e)
get_elem?-lt (d ∷ ds) zero c e = omega arith
get_elem?-lt (d ∷ ds) (suc n) c e = omega (arith, get_elem?-lt ds n c e)

pub get_elem?-none :
    (contents : List Content) (n : ℕ) → get_elem? contents n ≡ none → n < length contents → ⊥
get_elem?-none [] n e h = omega (arith, h)
get_elem?-none (c ∷ cs) zero e h = absurd (none-ne-some c (sym e))
get_elem?-none (c ∷ cs) (suc n) e h = get_elem?-none cs n e (omega arith)

module _ {T : Type 0} (calls : Trees T) where
  -- what one call does to an open table
  destroy_entry-open :
      (n : ℕ) (contents : List Content) (trees : T) (c : Content)
      → get_elem? contents n ≡ some c
      → (after : List Content) × (s : T) × ((destroy_entry calls n
            (some c)
            (open_table contents trees)).1
          ≡ open_table after s)
        × (length after ≡ length contents)
        × (FreeBelow n contents → FreeBelow (suc n) after)
  unfolding clear_content is_empty destroy_entry take_content_lock require_write attempts try_write
      drop_content_lock release_write try_release_write clear_entry edit_content
  destroy_entry-open n contents trees c here = elim (Bool-cases (is_empty c.content_type)) [
    | inl free ↦ rw free (
      contents,
      trees,
      refl,
      refl,
      λ before. FreeBelow-suc n contents before (subst FreeAt (sym here) free),
    )
    | inr in_use ↦ rw in_use (
        rw here (
          set contents n (clear_content c),
          free_tree calls c.root trees,
          refl,
          length-set contents n (clear_content c),
          λ before.
              FreeBelow-suc n (set contents n (clear_content c))
                (FreeBelow-set n contents (clear_content c) before)
                (subst FreeAt
                  (sym (
                    get_elem?-set_self contents n (clear_content c)
                      (get_elem?-lt contents n c here)))
                  refl),
        ))
  ]

  destroy_content-open :
      (n : ℕ) (contents : List Content) (trees : T)
      → n < length contents
      → n < content_table_size
      → (after : List Content) × (s : T) × ((destroy_content calls
            (pos n)
            (open_table contents trees)).1
          ≡ open_table after s)
        × (length after ≡ length contents)
        × (FreeBelow n contents → FreeBelow (suc n) after)
  unfolding destroy_content in_table
  destroy_content-open n contents trees inside bound = elim (Option-cases (get_elem? contents n)) [
    | inl missing ↦ absurd (get_elem?-none contents n missing inside)
    | inr (c, here) ↦
        rw (lt→ltb n content_table_size bound, in_table, destroy_content)
          (rw here (destroy_entry-open n contents trees c here))
  ]

  destroy_from-open :
      (i n : ℕ) (contents : List Content) (trees : T)
      → i + n ≡ content_table_size
      → length contents ≡ content_table_size
      → FreeBelow i contents
      → (after : List Content) × (s : T) × (destroy_from calls i n (open_table contents trees)
          ≡ open_table after s)
        × (length after ≡ content_table_size)
        × FreeBelow content_table_size after
  unfolding destroy_from
  destroy_from-open i zero contents trees rest size before =
      (contents, trees, refl, size, subst (λ k. FreeBelow k contents) (omega (arith, rest)) before)
  destroy_from-open i (suc n) contents trees rest size before =
      let (after, s, e, same, more) =
        destroy_content-open i contents trees (omega (arith, rest, size)) (omega (arith, rest)) in
      rw e (destroy_from-open (suc i) n after s (omega (arith, rest)) (same ∙ size) (more before))

  -- With the lock free, `ctable_destroy` leaves every entry of the table empty.
  pub ctable_destroy-FreeBelow :
      (contents : List Content) (trees : T)
      → length contents ≡ content_table_size
      → FreeBelow content_table_size (ctable_destroy calls (open_table contents trees)).1.contents
  unfolding ctable_destroy
  ctable_destroy-FreeBelow contents trees size =
      let (after, s, e, same, free) =
        destroy_from-open 0 content_table_size contents trees refl size
          (λ j below. absurd (omega (arith, below))) in
      rw e free
