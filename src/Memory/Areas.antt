-- ===== src/Memory/Areas.antt =====
-- What is handed out: the areas of the blocks in use, as their addresses and sizes.
use ni_fat.Base.{
  ℕ, ◌+◌, ◌≤◌, ◌≡◌, refl, sym, ap, ◌∙◌, arith, Bool, true, false, ◌&&◌, Bool-cases, inl, inr, List,
  [], ◌∷◌, ◌++◌, u32, leb, if◌then◌else◌, pick_by,
}
use ni_fat.Memory.{Block, header, merge_pass, coalesce_memory, serves, split_block}
use ni_fat.Memory.Merge.{coalesce_memory-keeps}
use ni_fat.Memory.Tiling.{IsTiled}

unfoldable pub used : List Block → List (ℕ × ℕ)
used [] = []
used (b ∷ bs) = let rest = used bs in if b.free then rest else (b.at + header, b.size) ∷ rest

-- the bytes that areas take with their headers
unfoldable pub total : List (ℕ × ℕ) → ℕ
total [] = 0
total (a ∷ areas) = a.1 + header + total areas

-- no area before `start`, each with its header behind the one before it, none past `stop`
unfoldable pub IsApart : ℕ → List (ℕ × ℕ) → ℕ → Type 0
IsApart start [] stop = start ≤ stop
IsApart start (a ∷ areas) stop = (start + header ≤ a.0) × IsApart (a.0 + a.1) areas stop

pub used-free : (b : Block) (bs : List Block) → b.free ≡ true → used (b ∷ bs) ≡ used bs
unfolding used
used-free b bs h = rw h refl

pub used-taken :
    (b : Block) (bs : List Block)
    → b.free ≡ false
    → used (b ∷ bs) ≡ (b.at + header, b.size) ∷ used bs
unfolding used
used-taken b bs h = ap (λ f. if f then used bs else (b.at + header, b.size) ∷ used bs) h

used-cons : (b : Block) (xs ys : List Block) → used xs ≡ used ys → used (b ∷ xs) ≡ used (b ∷ ys)
unfolding used
used-cons b xs ys e = ap (λ r. if b.free then r else (b.at + header, b.size) ∷ r) e

pub used-append : (xs ys : List Block) → used (xs ++ ys) ≡ used xs ++ used ys
unfolding used
used-append [] ys = refl
used-append (b ∷ bs) ys = elim (Bool-cases b.free) [
  | inl h ↦ rw h (used-append bs ys)
  | inr h ↦ rw h (ap (λ r. (b.at + header, b.size) ∷ r) (used-append bs ys))
]

pub total-append : (xs ys : List (ℕ × ℕ)) → total (xs ++ ys) ≡ total xs + total ys
unfolding total
total-append [] ys = omega arith
total-append (a ∷ areas) ys = omega (arith, total-append areas ys)

both_left : (a b : Bool) → (a && b) ≡ true → a ≡ true
both_left true b h = refl
both_left false b h = h

both_right : (a b : Bool) → (a && b) ≡ true → b ≡ true
both_right true b h = h
both_right false true h = refl
both_right false false h = h

pub merge_pass-used : (b : Block) (bs : List Block) → used (merge_pass b bs).1 ≡ used (b ∷ bs)
unfolding merge_pass
merge_pass-used b [] = refl
merge_pass-used b (n ∷ rest) =
    let grown : Block = record b { size = u32 (b.size + (header + n.size)) } in
    pick_by (λ (r : Bool × List Block). used r.1 ≡ used (b ∷ n ∷ rest)) (b.free && n.free) _ _
      (λ both.
        merge_pass-used grown rest
        ∙ used-free grown rest (both_left b.free n.free both)
        ∙ sym (
            used-free b (n ∷ rest) (both_left b.free n.free both)
            ∙ used-free n rest (both_right b.free n.free both)))
      (λ apart. used-cons b (merge_pass n rest).1 (n ∷ rest) (merge_pass-used n rest))

pub coalesce_memory-used :
    (fuel : ℕ) (blocks : List Block) → used (coalesce_memory fuel blocks) ≡ used blocks
coalesce_memory-used fuel blocks =
    coalesce_memory-keeps (λ r. used r ≡ used blocks) (λ b bs e. merge_pass-used b bs ∙ e) fuel
      blocks refl

pub serves_free : (size offset : ℕ) (b : Block) → serves size offset b ≡ true → b.free ≡ true
unfolding serves
serves_free size offset b h = both_left b.free _ h

-- the block that a search hands out
pub split_taken :
    (size : ℕ) (b : Block) (bs : List Block)
    → size ≤ b.size
    → ((split_block size b).0.at ≡ b.at)
      × ((split_block size b).0.free ≡ false)
      × (size ≤ (split_block size b).0.size)
      × (used ((split_block size b).1 ++ bs) ≡ used bs)
unfolding split_block used
split_taken size b bs fits = elim (Bool-cases (leb (size + header) b.size)) [
  | inl cut ↦ rw cut (refl, refl, omega arith, refl)
  | inr whole ↦ rw whole (refl, refl, fits, refl)
]

pub total-used-le :
    (start stop : ℕ) (bs : List Block) → IsTiled start bs stop → start + total (used bs) ≤ stop
unfolding IsTiled used total
total-used-le start stop [] h = omega (arith, h)
total-used-le start stop (b ∷ bs) h =
    let later = total-used-le (start + (header + b.size)) stop bs h.1 in
    pick_by (λ (r : List (ℕ × ℕ)). start + total r ≤ stop) b.free (used bs)
      ((b.at + header, b.size) ∷ used bs) (λ free. omega (arith, later))
      (λ taken. omega (arith, later))

IsApart-earlier :
    (m n stop : ℕ) (areas : List (ℕ × ℕ)) → m ≤ n → IsApart n areas stop → IsApart m areas stop
unfolding IsApart
IsApart-earlier m n stop [] e h = omega (arith, h)
IsApart-earlier m n stop (a ∷ areas) e h = (omega (arith, h.0), h.1)

pub IsApart-later :
    (m stop more : ℕ) (areas : List (ℕ × ℕ))
    → stop ≤ more
    → IsApart m areas stop
    → IsApart m areas more
unfolding IsApart
IsApart-later m stop more [] e h = omega (arith, h)
IsApart-later m stop more (a ∷ areas) e h = (h.0, IsApart-later (a.0 + a.1) stop more areas e h.1)

-- The areas in use lie apart from each other, from their headers and inside what the blocks cover.
pub used-IsApart :
    (start stop : ℕ) (bs : List Block) → IsTiled start bs stop → IsApart start (used bs) stop
unfolding IsTiled used IsApart
used-IsApart start stop [] h = omega (arith, h)
used-IsApart start stop (b ∷ bs) h =
    let later = used-IsApart (start + (header + b.size)) stop bs h.1 in
    pick_by (λ (r : List (ℕ × ℕ)). IsApart start r stop) b.free (used bs)
      ((b.at + header, b.size) ∷ used bs)
      (λ free. IsApart-earlier start _ stop (used bs) (omega arith) later)
      (λ taken. (
        omega (arith, h.0),
        IsApart-earlier (b.at + header + b.size) _ stop (used bs) (omega (arith, h.0)) later,
      ))
