-- ===== src/Api/Writing/Parts.antt =====
-- nifat32.c: the parts of a buffer that a round of a read or a write moves.
use ni_fat.Base.{
  ℕ, zero, suc, ◌+◌, ◌-◌, ◌≤◌, ◌≡◌, refl, sym, ap, ◌∙◌, arith, List, [], ◌∷◌, u32, length, take,
  drop,
}
use ni_fat.State.{Driver}
use ni_fat.Disk.{write_rounds, min_of, overwrite}
use ni_fat.Disk.Transfer.{take-append, drop-append}

take-take : (m n : ℕ) (xs : List ℕ) → m ≤ n → take m (take n xs) ≡ take m xs
take-take zero n xs h = refl
take-take (suc m) zero xs h = absurd (omega arith)
take-take (suc m) (suc n) [] h = refl
take-take (suc m) (suc n) (x ∷ xs) h = ap (λ (r : List ℕ). x ∷ r) (take-take m n xs (omega arith))

drop-take : (m n : ℕ) (xs : List ℕ) → drop m (take n xs) ≡ take (n - m) (drop m xs)
drop-take zero n xs = let e : n - 0 ≡ n = omega arith in rw e refl
drop-take (suc m) zero xs = let e : 0 - suc m ≡ 0 = omega arith in rw e refl
drop-take (suc m) (suc n) [] =
    let e : suc n - suc m ≡ n - m = omega arith in rw e (take_nil (n - m))
  where
    take_nil : (k : ℕ) → [] ≡ take {A = ℕ} k []
    take_nil zero = refl
    take_nil (suc k) = refl
drop-take (suc m) (suc n) (x ∷ xs) =
    let e : suc n - suc m ≡ n - m = omega arith in rw e (drop-take m n xs)

min_of-right : (room left : ℕ) → min_of room left ≤ left
min_of-right room left = ground arith

-- a write looks at no more of the data than it is to write
pub write_rounds-take :
    {S : Type 0} (d : Driver S) (ss k : ℕ) (t : S) (sa off n : ℕ) (bytes : List ℕ)
    → write_rounds d t ss k sa off n (take n bytes) ≡ write_rounds d t ss k sa off n bytes
unfolding write_rounds
write_rounds-take {S} d ss zero t sa off n bytes = refl
write_rounds-take {S} d ss (suc k) t sa off n bytes =
    let m : ℕ = min_of (ss - off) n in
    let t' : S = (d.write_sector t sa off (take m bytes)).1 in
    rw
      (
        take-take m n bytes (min_of-right (ss - off) n),
        drop-take m n bytes,
        write_rounds-take d ss k t (u32 (sa + 1)) (off - ss) n bytes,
        write_rounds-take d ss k t' (u32 (sa + 1)) 0 (n - m) (drop m bytes),
      )
      refl

-- the front and the rest of a buffer with `part` in front
pub take_part :
    (part buffer : List ℕ) (n : ℕ) → length part ≡ n → take n (overwrite buffer part) ≡ part
take_part part buffer n long =
    ap (λ (k : ℕ). take k (overwrite buffer part)) (sym long)
    ∙ take-append part (drop (length part) buffer)

pub drop_part :
    (part buffer : List ℕ) (n : ℕ)
    → length part ≡ n
    → drop n (overwrite buffer part) ≡ drop n buffer
drop_part part buffer n long =
    ap (λ (k : ℕ). drop k (overwrite buffer part)) (sym long)
    ∙ drop-append part (drop (length part) buffer)
    ∙ ap (λ (k : ℕ). drop k buffer) long
