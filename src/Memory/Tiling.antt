-- ===== src/Memory/Tiling.antt =====
-- The blocks of the chain stand one behind the other.
use ni_fat.Base.{
  ℕ, ◌+◌, ◌^◌, ◌≤◌, ◌<◌, ◌≡◌, subst, arith, true, ◌&&◌, Bool-cases, inl, inr, List, [], ◌∷◌, ◌++◌,
  u32, leb, leb→le,
}
use ni_fat.Memory.{Block, merge_pass, header, serves, split_block}
use ni_fat.Memory.Search.{Placed, Released}

-- the blocks cover the bytes from `start` to `stop`, each where the one before it ends
unfoldable pub IsTiled : ℕ → List Block → ℕ → Type 0
IsTiled start [] stop = start ≡ stop
IsTiled start (b ∷ bs) stop = (b.at ≡ start) × IsTiled (start + (header + b.size)) bs stop

pub IsTiled-le : (start : ℕ) (bs : List Block) (stop : ℕ) → IsTiled start bs stop → start ≤ stop
unfolding IsTiled
IsTiled-le start [] stop h = omega (arith, h)
IsTiled-le start (b ∷ bs) stop h = omega (arith, IsTiled-le (start + (header + b.size)) bs stop h.1)

pub merge_pass-IsTiled :
    (start stop : ℕ)
    → stop < 2 ^ 32
    → (b : Block) (bs : List Block) → IsTiled start (b ∷ bs) stop
    → IsTiled start (merge_pass b bs).1 stop
unfolding IsTiled merge_pass
merge_pass-IsTiled start stop bound b [] h = h
merge_pass-IsTiled start stop bound b (n ∷ rest) h = elim (Bool-cases (b.free && n.free)) [
  | inl both ↦
      let size : u32 (b.size + (header + n.size)) ≡ b.size + (header + n.size) =
        omega (arith, bound, IsTiled-le _ rest stop h.1.1) in
      let end : start + (header + b.size) + (header + n.size)
          ≡ start + (header + u32 (b.size + (header + n.size))) =
        omega (arith, size) in
      rw both (
        merge_pass-IsTiled start stop bound (record b { size = u32 (b.size + (header + n.size)) })
          rest (h.0, subst (λ m. IsTiled m rest stop) end h.1.1))
  | inr apart ↦ rw apart (h.0, merge_pass-IsTiled (start + (header + b.size)) stop bound n rest h.1)
]

pub split_block-IsTiled :
    (size start stop : ℕ) (b : Block) (bs : List Block)
    → size ≤ b.size
    → IsTiled start (b ∷ bs) stop
    → IsTiled start ((split_block size b).0 ∷ ((split_block size b).1 ++ bs)) stop
unfolding IsTiled split_block
split_block-IsTiled size start stop b bs fits h = elim (Bool-cases (leb (size + header) b.size)) [
  | inl cut ↦
      let room = leb→le (size + header) b.size cut in
      rw cut (h.0, (omega (arith, h.0), subst (λ m. IsTiled m bs stop) (omega (arith, room)) h.1))
  | inr whole ↦ rw whole h
]

-- behind a part of the chain that stays, another part that covers the same bytes will do
IsTiled-behind :
    (front xs ys : List Block) (start stop : ℕ)
    → ((m : ℕ) → IsTiled m xs stop → IsTiled m ys stop)
    → IsTiled start (front ++ xs) stop
    → IsTiled start (front ++ ys) stop
unfolding IsTiled
IsTiled-behind [] xs ys start stop same h = same start h
IsTiled-behind (b ∷ bs) xs ys start stop same h =
    (h.0, IsTiled-behind bs xs ys (start + (header + b.size)) stop same h.1)

pub serves_fits : (size offset : ℕ) (b : Block) → serves size offset b ≡ true → size ≤ b.size
unfolding serves
serves_fits size offset b h = ground arith

pub place-IsTiled :
    (size offset start stop : ℕ) (bs : List Block) (p : Block × List Block)
    → IsTiled start bs stop
    → Placed size offset bs p
    → IsTiled start p.1 stop
place-IsTiled size offset start stop bs p h (s, ok, block, chain) = rw chain (
    IsTiled-behind s.front (s.block ∷ s.back) _ start stop
      (λ m tiled.
        split_block-IsTiled size m stop s.block s.back (serves_fits size offset s.block ok) tiled)
      (subst (λ r. IsTiled start r stop) s.whole h))

pub release-IsTiled :
    (ptr start stop : ℕ) (bs : List Block) (p : ℕ × List Block)
    → IsTiled start bs stop
    → Released ptr bs p
    → IsTiled start p.1 stop
release-IsTiled ptr start stop bs p h (s, used, here, size, chain) = rw chain (
    IsTiled-behind s.front (s.block ∷ s.back) _ start stop
      (λ m tiled. unfold IsTiled in (tiled.0, tiled.1))
      (subst (λ r. IsTiled start r stop) s.whole h))
