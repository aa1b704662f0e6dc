-- ===== src/Memory/Merge.antt =====
-- `__coalesce_memory` against what it leaves: no free block next to another.
use ni_fat.Base.{
  ℕ, zero, suc, ◌+◌, ◌≡◌, refl, sym, subst, ◌∙◌, Bool, false, ◌&&◌, Bool-cases, inl, inr, List, [],
  ◌∷◌, u32,
}
use ni_fat.Memory.{Block, merge_pass, coalesce_memory, header}

-- a pass over a chain
unfoldable pub pass_of : List Block → Bool × List Block
pass_of [] = (false, [])
pass_of (b ∷ bs) = merge_pass b bs

-- the chain is not changed by a further pass
abbrev pub IsMerged : List Block → Type 0
IsMerged blocks = pass_of blocks ≡ (false, blocks)

-- a pass keeps its first block in place, which may grow
first_block :
    (c : Block) (bs : List Block)
    → (h : Block) × (t : List Block) × ((merge_pass c bs).1 ≡ h ∷ t) × (h.free ≡ c.free)
unfolding merge_pass
first_block c [] = (c, [], refl, refl)
first_block c (n ∷ rest) = elim (Bool-cases (c.free && n.free)) [
  | inl both ↦ rw both (first_block (record c { size = u32 (c.size + (header + n.size)) }) rest)
  | inr apart ↦ rw apart (c, (merge_pass n rest).1, refl, refl)
]

merge_pass-keep :
    (c n : Block) (rest : List Block)
    → (c.free && n.free) ≡ false
    → merge_pass c (n ∷ rest) ≡ ((merge_pass n rest).0, c ∷ (merge_pass n rest).1)
unfolding merge_pass
merge_pass-keep c n rest apart = rw apart refl

pub merge_pass-IsMerged : (c : Block) (bs : List Block) → IsMerged (merge_pass c bs).1
unfolding pass_of merge_pass
merge_pass-IsMerged c [] = refl
merge_pass-IsMerged c (n ∷ rest) = elim (Bool-cases (c.free && n.free)) [
  | inl both ↦
      rw both (merge_pass-IsMerged (record c { size = u32 (c.size + (header + n.size)) }) rest)
  | inr apart ↦
      let (h, t, e, same) = first_block n rest in
      let later : merge_pass h t ≡ (false, h ∷ t) = subst IsMerged e (merge_pass-IsMerged n rest) in
      rw apart (rw e (merge_pass-keep c h t (rw same apart) ∙ rw later refl))
]

settled : (fuel : ℕ) (blocks : List Block) → IsMerged blocks → coalesce_memory fuel blocks ≡ blocks
unfolding coalesce_memory pass_of
settled zero blocks h = refl
settled (suc fuel) [] h = refl
settled (suc fuel) (b ∷ bs) h = rw h refl

one_pass :
    (fuel : ℕ) (b : Block) (bs : List Block)
    → coalesce_memory (suc fuel) (b ∷ bs) ≡ (merge_pass b bs).1
unfolding coalesce_memory
one_pass fuel b bs = elim (Bool-cases (merge_pass b bs).0) [
  | inl merged ↦ rw merged (settled fuel (merge_pass b bs).1 (merge_pass-IsMerged b bs))
  | inr kept ↦ rw kept refl
]

-- The loop ends: two rounds are enough, the second merges nothing, and any more give the same chain,
-- in which no two free blocks stand side by side.
pub coalesce_memory-ends :
    (more : ℕ) (blocks : List Block)
    → (coalesce_memory (suc (suc more)) blocks ≡ coalesce_memory 2 blocks)
      × IsMerged (coalesce_memory 2 blocks)
coalesce_memory-ends more [] = unfold coalesce_memory in unfold pass_of in (refl, refl)
coalesce_memory-ends more (b ∷ bs) = (
  one_pass (suc more) b bs ∙ sym (one_pass 1 b bs),
  subst IsMerged (sym (one_pass 1 b bs)) (merge_pass-IsMerged b bs),
)

-- what every pass keeps, the loop keeps
pub coalesce_memory-keeps {ℓ} :
    (P : List Block → Type ℓ)
    → ((b : Block) (bs : List Block) → P (b ∷ bs) → P (merge_pass b bs).1)
    → (fuel : ℕ) (blocks : List Block) → P blocks
    → P (coalesce_memory fuel blocks)
coalesce_memory-keeps P keep zero blocks p = unfold coalesce_memory in p
coalesce_memory-keeps P keep (suc fuel) [] p = unfold coalesce_memory in p
coalesce_memory-keeps P keep (suc fuel) (b ∷ bs) p =
    subst P (sym (one_pass fuel b bs)) (keep b bs p)
