-- ===== src/Fat/Apart.antt =====
-- src/fat.c: the entries of other clusters while `write_fat` writes one.
use ni_fat.Base.{
  ℕ, zero, suc, ◌+◌, ◌<◌, ◌≤◌, ◌≡◌, ◌≢◌, sym, subst, arith, Bool, true, false, List, [], ◌∷◌,
  length, ◌⊎◌, inl, inr,
}
use ni_fat.State.{FatData, Core, State, Driver, IsDevice, ready}
use ni_fat.Hamming.Buffer.{le32, packed}
use ni_fat.Hamming.Buffer.Roundtrip.{length-packed-le32}
use ni_fat.Disk.Single.{Holds, write_apart-Holds}
use ni_fat.Disk.Copies.{put_copies}
use ni_fat.Fat.Alone.{updated}
use ni_fat.Fat.Copies.{entry_off, CopiesHold, put}
use ni_fat.Fat.Stored.{write_fat-stored}
use ni_fat.Fat.{entry_sector, is_outside, write_fat}

module _ {S : Type 0} (d : Driver S) (off : ℕ) (bytes : List ℕ) (sector : ℕ → ℕ) where
  -- bytes that no copy covers stay, where the sectors or the offsets differ
  put_copies-others :
      (ss : ℕ)
      → IsDevice d ss
      → off + length bytes ≤ ss
      → (n i : ℕ) (t : S) (sb o : ℕ) (other : List ℕ) → o + length other ≤ ss
      → ((k : ℕ)
          → i ≤ k
          → k < i + n
          → (sector k ≢ sb) ⊎ ((off + length bytes ≤ o) ⊎ (o + length other ≤ off)))
      → Holds d ss t sb o other
      → Holds d ss (put_copies d off bytes sector n i t).1 sb o other
  unfolding put_copies
  put_copies-others ss dev fits zero i t sb o other room apart held = held
  put_copies-others ss dev fits (suc n) i t sb o other room apart held =
      put_copies-others ss dev fits n (i + 1) _ sb o other room
        (λ k p q. apart k (omega arith) (omega arith))
        (write_apart-Holds d ss dev t (sector i) off bytes sb o other fits room
          (apart i (omega arith) (omega arith)) held)

module _ {S : Type 0} (d : Driver S) (fi : FatData) where
  -- no copy of the one entry overlaps a copy of the other
  abbrev pub EntriesApart : ℕ → ℕ → Type 0
  EntriesApart ca cb =
      (i j : ℕ)
      → i < fi.fat_count
      → j < fi.fat_count
      → (entry_sector fi ca i ≢ entry_sector fi cb j)
        ⊎ ((entry_off d fi ca + 8 ≤ entry_off d fi cb)
            ⊎ (entry_off d fi cb + 8 ≤ entry_off d fi ca))

  module _ (c : Core S) (ca cb value : ℕ) (dev : IsDevice d c.sector_size)
      (apart : EntriesApart ca cb) (fits : entry_off d fi ca + 8 ≤ c.sector_size)
      (room : entry_off d fi cb + 8 ≤ c.sector_size) where
    put-CopiesHold :
        (i : ℕ) (ys : List ℕ)
        → i + length ys ≤ fi.fat_count
        → CopiesHold d fi c cb i ys
        → CopiesHold d fi
            (record (updated ca value c) { store = (put d fi ca value fi.fat_count 0 c.store).1 })
            cb
            i
            ys
    put-CopiesHold i [] h held = tt
    put-CopiesHold i (y ∷ ys) h held = (
      held.0,
      put_copies-others d (entry_off d fi ca) (packed (le32 value)) (entry_sector fi ca)
          c.sector_size dev (omega (arith, length-packed-le32 value)) fi.fat_count 0 c.store
          (entry_sector fi cb i) (entry_off d fi cb) (packed (le32 y))
          (omega (arith, length-packed-le32 y))
          (λ k p q. elim (apart k i (omega arith) (omega arith)) [
            | inl ne ↦ inl ne
            | inr (inl l) ↦ inr (inl (omega (arith, length-packed-le32 value)))
            | inr (inr l) ↦ inr (inr (omega (arith, length-packed-le32 y)))
          ])
          held.1,
      put-CopiesHold (i + 1) ys (omega arith) held.2,
    )

-- A `write_fat` that reports success leaves in all copies of another cluster's entry what they held,
-- where no copy of the one entry overlaps a copy of the other, both lie inside a sector, and the
-- device keeps what is written.
pub write_fat-CopiesHold :
    {S : Type 0} (d : Driver S) (fi : FatData) (c : Core S) (ca cb value : ℕ) (ys : List ℕ)
    → IsDevice d c.sector_size
    → is_outside fi ca ≡ false
    → EntriesApart d fi ca cb
    → entry_off d fi ca + 8 ≤ c.sector_size
    → entry_off d fi cb + 8 ≤ c.sector_size
    → length ys ≤ fi.fat_count
    → CopiesHold d fi c cb 0 ys
    → let (written, s) = write_fat d fi ca value (ready c) in
      written ≡ true → CopiesHold d fi s.core cb 0 ys
write_fat-CopiesHold {S} d fi c ca cb value ys dev inside apart fits room len held ok =
    let (all, run) = write_fat-stored d fi c ca inside fits value ok in
    subst (λ (r : Bool × State S). CopiesHold d fi r.1.core cb 0 ys) (sym run)
      (put-CopiesHold d fi c ca cb value dev apart fits room 0 ys (omega arith) held)
