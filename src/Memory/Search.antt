-- ===== src/Memory/Search.antt =====
-- Which block the two searches of std/mm.c stop at.
use ni_fat.Base.{
  ℕ, ◌+◌, ◌≡◌, refl, ap, true, false, Bool-cases, inl, inr, List, [], ◌∷◌, ◌++◌, Option, some, none,
  ◌==◌, ==_iff, All, pick_by,
}
use ni_fat.Memory.{Block, header, serves, split_block, place, release}

-- a chain with the one block that is changed
pub record Spot (blocks : List Block) : Type 0 where
  pub front : List Block
  pub block : Block
  pub back : List Block
  pub whole : blocks ≡ front ++ block ∷ back

abbrev spot_later : (b : Block) (bs : List Block) → Spot bs → Spot (b ∷ bs)
spot_later b bs s = record {
  front = b ∷ s.front;
  block = s.block;
  back = s.back;
  whole = ap (λ r. b ∷ r) s.whole;
}

-- what a search that succeeds found
abbrev pub Placed : (size offset : ℕ) (bs : List Block) → Block × List Block → Type 0
Placed size offset bs p =
    (s : Spot bs) × (serves size offset s.block ≡ true)
    × (p.0 ≡ (split_block size s.block).0)
    × (p.1 ≡ s.front ++ ((split_block size s.block).0 ∷ ((split_block size s.block).1 ++ s.back)))

-- what an answer of the search says of the chain
abbrev pub PlaceResult : (size offset : ℕ) (bs : List Block) → Option (Block × List Block) → Type 0
PlaceResult size offset bs none = All (λ b. serves size offset b ≡ false) bs
PlaceResult size offset bs (some p) = Placed size offset bs p

place_later :
    (size offset : ℕ) (b : Block) (bs : List Block)
    → serves size offset b ≡ false
    → (o : Option (Block × List Block)) → PlaceResult size offset bs o
    → PlaceResult size offset (b ∷ bs) (elim o [ none ↦ none | some p ↦ some (p.0, b ∷ p.1) ])
place_later size offset b bs unfit none r = (unfit, r)
place_later size offset b bs unfit (some p) (s, ok, block, chain) =
    (spot_later b bs s, ok, block, ap (λ (r : List Block). b ∷ r) chain)

pub place_found :
    (size offset : ℕ) (bs : List Block) → PlaceResult size offset bs (place size offset bs)
unfolding place
place_found size offset [] = tt
place_found size offset (b ∷ bs) = elim (Bool-cases (serves size offset b)) [
  | inl fit ↦ rw fit (record { front = []; block = b; back = bs; whole = refl }, fit, refl, refl)
  | inr unfit ↦
      rw unfit
        (place_later size offset b bs unfit (place size offset bs) (place_found size offset bs))
]

-- what an answer of the search of `_free_s` says of the chain
abbrev pub Released : (ptr : ℕ) (bs : List Block) → ℕ × List Block → Type 0
Released ptr bs p =
    (s : Spot bs) × (s.block.free ≡ false)
    × (s.block.at + header ≡ ptr)
    × (p.0 ≡ s.block.size)
    × (p.1 ≡ s.front ++ (record s.block { free = true } ∷ s.back))

abbrev pub ReleaseResult : (ptr : ℕ) (bs : List Block) → Option (ℕ × List Block) → Type 0
ReleaseResult ptr bs none = Unit
ReleaseResult ptr bs (some p) = Released ptr bs p

release_later :
    (ptr : ℕ) (b : Block) (bs : List Block) (o : Option (ℕ × List Block))
    → ReleaseResult ptr bs o
    → ReleaseResult ptr (b ∷ bs) (elim o [ none ↦ none | some p ↦ some (p.0, b ∷ p.1) ])
release_later ptr b bs none r = tt
release_later ptr b bs (some p) (s, used, here, size, chain) =
    (spot_later b bs s, used, here, size, ap (λ (r : List Block). b ∷ r) chain)

pub release_found : (ptr : ℕ) (bs : List Block) → ReleaseResult ptr bs (release ptr bs)
unfolding release
release_found ptr [] = tt
release_found ptr (b ∷ bs) = elim (Bool-cases (b.at + header == ptr)) [
  | inl here ↦ rw here (
      pick_by (ReleaseResult ptr (b ∷ bs)) b.free none
        (some (b.size, record b { free = true } ∷ bs)) (λ free. tt)
        (λ used. (
          record { front = []; block = b; back = bs; whole = refl },
          used,
          (==_iff (b.at + header) ptr).0 here,
          refl,
          refl,
        )))
  | inr other ↦ rw other (release_later ptr b bs (release ptr bs) (release_found ptr bs))
]
