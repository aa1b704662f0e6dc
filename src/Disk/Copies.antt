-- ===== src/Disk/Copies.antt =====
-- An entry that is kept in one sector for each of several copies, as the tables of src/fat.c,
-- src/errors.c and src/journal.c are: what a round of writes to all copies leaves on the device.
use ni_fat.Base.{
  ℕ, zero, suc, ◌+◌, ◌<◌, ◌≤◌, ◌==◌, ◌≡◌, ◌≢◌, ap, arith, Bool, true, false, not, ◌&&◌,
}
use ni_fat.Base.{◌⊎◌, inl, inr, List, length}
use native.Mathlib.Decide.{ℕ_discrete}
use ni_fat.State.{Driver, IsDevice}
use ni_fat.Base.{==→ne}
use ni_fat.Disk.Single.{Holds, write-Holds, write_apart-Holds}

both_true : (a b : Bool) → (a && b) ≡ true → (a ≡ true) × (b ≡ true)
both_true a b h = ground arith

not-eq_true : (b : Bool) → not b ≡ true → b ≡ false
not-eq_true b h = ground arith

module _ {S : Type 0} (d : Driver S) (off : ℕ) (bytes : List ℕ) (sector : ℕ → ℕ) where
  -- `n` copies, from number `i` on: whether all writes succeeded, and the device after them
  unfoldable pub put_copies : ℕ → ℕ → S → Bool × S
  put_copies zero i t = (true, t)
  put_copies (suc n) i t =
      let (status, t') = d.write_sector t (sector i) off bytes in
      let rest = put_copies n (i + 1) t' in (not (status == 0) && rest.0, rest.1)

  module _ (ss : ℕ) (dev : IsDevice d ss) (fits : off + length bytes ≤ ss) where
    written :
        (n i : ℕ) (t : S)
        → (put_copies (suc n) i t).0 ≡ true
        → ((d.write_sector t (sector i) off bytes).0 ≢ 0)
          × ((put_copies n (i + 1) (d.write_sector t (sector i) off bytes).1).0 ≡ true)
    unfolding put_copies
    written n i t h = let (a, b) = both_true _ _ h in (==→ne (not-eq_true _ a), b)

    put_copies-keeps :
        (n i : ℕ) (t : S) (sa : ℕ)
        → (put_copies n i t).0 ≡ true
        → Holds d ss t sa off bytes
        → Holds d ss (put_copies n i t).1 sa off bytes
    unfolding put_copies
    put_copies-keeps zero i t sa h held = held
    put_copies-keeps (suc n) i t sa h held =
        let (ok, rest) = written n i t h in
        put_copies-keeps n (i + 1) _ sa rest
          (write-Holds d ss dev t sa (sector i) off bytes fits ok (inr held))

    -- if all writes succeeded then every copy holds the bytes, also where copies share a sector
    pub put_copies-Holds :
        (n i : ℕ) (t : S) (j : ℕ)
        → (put_copies n i t).0 ≡ true
        → i ≤ j
        → j < i + n
        → Holds d ss (put_copies n i t).1 (sector j) off bytes
    unfolding put_copies
    put_copies-Holds zero i t j h p q = absurd (omega arith)
    put_copies-Holds (suc n) i t j h p q =
        let (ok, rest) = written n i t h in
        elim (ℕ_discrete j i) [
          | yes e ↦
              put_copies-keeps n (i + 1) _ (sector j) rest
                (write-Holds d ss dev t (sector j) (sector i) off bytes fits ok (inl (ap sector e)))
          | no e ↦ put_copies-Holds n (i + 1) _ j rest (omega arith) (omega arith)
        ]

    -- bytes of other places of the sectors stay
    pub put_copies_apart :
        (n i : ℕ) (t : S) (sb o : ℕ) (other : List ℕ)
        → o + length other ≤ ss
        → (off + length bytes ≤ o) ⊎ (o + length other ≤ off)
        → Holds d ss t sb o other
        → Holds d ss (put_copies n i t).1 sb o other
    unfolding put_copies
    put_copies_apart zero i t sb o other h apart held = held
    put_copies_apart (suc n) i t sb o other h apart held =
        put_copies_apart n (i + 1) _ sb o other h apart
          (write_apart-Holds d ss dev t (sector i) off bytes sb o other fits h (inr apart) held)
