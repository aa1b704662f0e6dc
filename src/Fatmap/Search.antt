-- ===== src/Fatmap/Search.antt =====
-- src/fatmap.c, `fatmap_find_free`: the first range of free clusters.
use ni_fat.Base.{
  ℕ, zero, suc, ◌+◌, ◌-◌, ◌<◌, ◌≤◌, ◌==◌, ltb, leb, ◌≡◌, ◌≢◌, ◌⊎◌, inl, inr, refl, arith, List,
}
use ni_fat.Base.{none, some, Option-cases, Bool-cases, ◌∙◌}
use mathlib.Core.Option.{none-ne-some}
use native.Mathlib.Decide.{ℕ_discrete, dec_lt}
use ni_fat.Base.{◌||◌, true, false, leb→le, sym, ==→ne}
use ni_fat.Fatmap.{mark, first_mark, search_from, find_free_in}

-- `size` clusters from `i` on are marked as free
abbrev pub IsFreeRange : List ℕ → ℕ → ℕ → Type 0
IsFreeRange bitmap size i = (j : ℕ) → i ≤ j → j < i + size → mark bitmap j ≢ 1

first_mark-hit :
    (bitmap : List ℕ) (n i : ℕ) → (mark bitmap i == 1) ≡ true → first_mark bitmap (suc n) i ≡ some i
unfolding first_mark
first_mark-hit bitmap n i h = rw h

first_mark-none :
    (bitmap : List ℕ) (n i : ℕ) → first_mark bitmap n i ≡ none → IsFreeRange bitmap n i
unfolding first_mark
first_mark-none bitmap zero i e j p q = absurd (omega arith)
first_mark-none bitmap (suc n) i e j p q = elim (Bool-cases (mark bitmap i == 1)) [
  | inl taken ↦ absurd (none-ne-some i (sym e ∙ first_mark-hit bitmap n i taken))
  | inr free ↦ elim (ℕ_discrete j i) [
    | yes same ↦ rw same (==→ne free)
    | no other ↦ first_mark-none bitmap n (i + 1) (rw free at e) j (omega arith) (omega arith)
  ]
]

first_mark-some :
    (bitmap : List ℕ) (n i b : ℕ)
    → first_mark bitmap n i ≡ some b
    → (mark bitmap b ≡ 1) × (i ≤ b) × (b < i + n)
unfolding first_mark
first_mark-some bitmap zero i b e = cc
first_mark-some bitmap (suc n) i b e = ground (arith, first_mark-some bitmap n (i + 1) b)

-- `r` is the first free range from `i` up to `limit`, or 0 where there is none
abbrev IsFirst : List ℕ → ℕ → ℕ → ℕ → ℕ → Type 0
IsFirst bitmap size limit i r =
    ((i ≤ r)
      × (r ≤ limit)
      × IsFreeRange bitmap size r
      × ((k : ℕ) → i ≤ k → k < r → ¬ IsFreeRange bitmap size k))
    ⊎ ((r ≡ 0) × ((k : ℕ) → i ≤ k → k ≤ limit → ¬ IsFreeRange bitmap size k))

-- no free range contains the set bit
blocked :
    (bitmap : List ℕ) (size b k : ℕ)
    → mark bitmap b ≡ 1
    → k ≤ b
    → b < k + size
    → ¬ IsFreeRange bitmap size k
blocked bitmap size b k m p q free = free b p q m

skip-IsFirst :
    (bitmap : List ℕ) (size limit i b r : ℕ)
    → mark bitmap b ≡ 1
    → i ≤ b
    → b < i + size
    → IsFirst bitmap size limit (b + 1) r
    → IsFirst bitmap size limit i r
skip-IsFirst bitmap size limit i b r m p q (inl h) = inl (
  omega arith,
  h.1,
  h.2,
  λ k u v. elim (dec_lt b k) [
    | yes w ↦ h.3 k (omega arith) v
    | no w ↦ blocked bitmap size b k m (omega arith) (omega arith)
  ],
)
skip-IsFirst bitmap size limit i b r m p q (inr h) = inr (
  h.0,
  λ k u v. elim (dec_lt b k) [
    | yes w ↦ h.1 k (omega arith) v
    | no w ↦ blocked bitmap size b k m (omega arith) (omega arith)
  ],
)

search_from-IsFirst :
    (bitmap : List ℕ) (size limit fuel i : ℕ)
    → limit + 1 ≤ fuel + i
    → IsFirst bitmap size limit i (search_from bitmap size limit fuel i)
unfolding search_from
search_from-IsFirst bitmap size limit zero i h = inr (refl, λ k p q. absurd (omega arith))
search_from-IsFirst bitmap size limit (suc fuel) i h = elim (Bool-cases (leb i limit)) [
  | inr past ↦ rw past (inr (refl, λ k p q. absurd (ground arith)))
  | inl inside ↦ elim (Option-cases (first_mark bitmap size i)) [
    | inl clear ↦
        rw (inside, clear)
          (inl (
            omega arith,
            leb→le i limit inside,
            first_mark-none bitmap size i clear,
            λ k p q. absurd (omega arith),
          ))
    | inr (b, hit) ↦
        let (m, p, q) = first_mark-some bitmap size i b hit in
        rw (inside, hit)
          (skip-IsFirst bitmap size limit i b _ m p q
            (search_from-IsFirst bitmap size limit fuel (b + 1) (omega arith)))
  ]
]

-- For a request of at least one cluster that fits the clusters behind `offset`, what
-- `fatmap_find_free` returns either begins the first range of free clusters from `offset` on that ends
-- by the last cluster, or is 0, and there is no such range. With `offset` 0 both can be 0: the first
-- range may begin there.
pub find_free_in-first :
    (bitmap : List ℕ) (offset size total : ℕ)
    → 0 < size
    → offset + size ≤ total
    → let r = find_free_in bitmap offset size total in
      ((offset ≤ r)
        × (r + size ≤ total)
        × IsFreeRange bitmap size r
        × ((k : ℕ) → offset ≤ k → k < r → ¬ IsFreeRange bitmap size k))
      ⊎ ((r ≡ 0) × ((k : ℕ) → offset ≤ k → k + size ≤ total → ¬ IsFreeRange bitmap size k))
unfolding find_free_in
find_free_in-first bitmap offset size total p h =
    let sound : (size == 0 || (leb total offset || ltb (total - offset) size)) ≡ false =
      ground arith in
    rw sound
      (elim (search_from-IsFirst bitmap size (total - size) (total - size + 1 - offset) offset
        (omega arith)) [
          | inl f ↦ inl (f.0, omega arith, f.2, f.3)
          | inr f ↦ inr (f.0, λ k u v. f.1 k u (omega arith))
        ])

-- A request for no cluster, or for more than there are from `offset` on, is answered by 0.
pub find_free_in_refused :
    (bitmap : List ℕ) (offset size total : ℕ)
    → (size ≡ 0) ⊎ (total < offset + size)
    → find_free_in bitmap offset size total ≡ 0
unfolding find_free_in
find_free_in_refused bitmap offset size total h =
    let refused : (size == 0 || (leb total offset || ltb (total - offset) size)) ≡ true =
      ground arith in
    rw refused
