-- ===== src/Disk/Single.antt =====
-- src/disk.c: transfers inside one sector, as the modules above make them for their entries.
use mathlib.Core.List.{append-nil}
use ni_fat.Base.{ℕ, ◌+◌, ◌-◌, ◌<◌, ◌≤◌, ◌≡◌, ◌≢◌, refl, sym, ap, ◌∙◌, arith, Bool, true, false, not}
use ni_fat.Base.{◌⊎◌, inl, inr, ltb, ◌==◌, List, [], ◌∷◌, length, take, drop, if◌then◌else◌}
use native.Mathlib.Decide.{ℕ_discrete}
use ni_fat.State.{Driver, IsDevice, Core}
use ni_fat.Disk.Sectors.{at_rest, writeoff-at_rest, readoff-at_rest}
use ni_fat.Disk.{writeoff_sectors, readoff_sectors, read_rounds, write_rounds, overwrite, min_of}
use ni_fat.Disk.Transfer.{take-append, drop-append}
use ni_fat.Base.{ne→==}

take_all : (bytes : List ℕ) → take (length bytes) bytes ≡ bytes
take_all [] = refl
take_all (b ∷ bs) = ap (λ r. b ∷ r) (take_all bs)

if-pair :
    {S : Type 0} (b : Bool) (t : S)
    → ◌≡◌ {A = Bool × S} (if b then (false, t) else (true, t)) (not b, t)
if-pair true t = refl
if-pair false t = refl

module _ {S : Type 0} (d : Driver S) (ss : ℕ) where
  -- one round for bytes that end inside the sector
  pub write_once :
      (t : S) (sa off : ℕ) (bytes : List ℕ)
      → 0 < length bytes
      → off + length bytes ≤ ss
      → write_rounds d t ss 1 sa off (length bytes) bytes
        ≡ (not ((d.write_sector t sa off bytes).0 == 0), (d.write_sector t sa off bytes).1)
  unfolding write_rounds
  write_once t sa off bytes p h =
      let e : min_of (ss - off) (length bytes) ≡ length bytes = ground arith in
      let more : (length bytes == 0) ≡ false = ground arith in
      let here : ltb ss off ≡ false = ground arith in rw (more, here, e, take_all) (if-pair _ _)

  -- the sector holds the bytes at the offset
  abbrev pub Holds : S → ℕ → ℕ → List ℕ → Type 0
  Holds t sa off bytes =
      ((d.read_sector t sa off (length bytes)).0 ≢ 0)
      × ((d.read_sector t sa off (length bytes)).1 ≡ bytes)

  pub read_once :
      (t : S) (sa off : ℕ) (bytes buffer : List ℕ)
      → 0 < length bytes
      → off + length bytes ≤ ss
      → Holds t sa off bytes
      → read_rounds d t ss 1 sa off (length bytes) buffer ≡ (true, overwrite buffer bytes)
  unfolding read_rounds
  read_once t sa off bytes buffer p h held =
      let e : min_of (ss - off) (length bytes) ≡ length bytes = ground arith in
      let more : (length bytes == 0) ≡ false = ground arith in
      let here : ltb ss off ≡ false = ground arith in
      rw (more, here, e, ne→== held.0, held.1, take-append, drop-append)

  module _ (dev : IsDevice d ss) where
    -- storing the bytes once more, or elsewhere, leaves them there
    pub write-Holds :
        (t : S) (sa sb off : ℕ) (bytes : List ℕ)
        → off + length bytes ≤ ss
        → (d.write_sector t sb off bytes).0 ≢ 0
        → (sa ≡ sb) ⊎ Holds t sa off bytes
        → Holds (d.write_sector t sb off bytes).1 sa off bytes
    write-Holds t sa sb off bytes h ok held = elim (ℕ_discrete sa sb) [
      | yes e ↦ rw e (dev.read_back t sb off bytes h ok)
      | no e ↦
          let same =
            dev.read_apart t sb off bytes sa off (length bytes) h h (inl (λ q. e (sym q))) in
          rw same (elim held [ inl q ↦ absurd (e q) | inr k ↦ k ])
    ]

    pub write_apart-Holds :
        (t : S) (sa off : ℕ) (bytes : List ℕ) (sb o : ℕ) (other : List ℕ)
        → off + length bytes ≤ ss
        → o + length other ≤ ss
        → (sa ≢ sb) ⊎ ((off + length bytes ≤ o) ⊎ (o + length other ≤ off))
        → Holds t sb o other
        → Holds (d.write_sector t sa off bytes).1 sb o other
    write_apart-Holds t sa off bytes sb o other h k apart held =
        rw (dev.read_apart t sa off bytes sb o (length other) h k apart) held

drop_all : (xs : List ℕ) → drop (length xs) xs ≡ []
drop_all [] = refl
drop_all (x ∷ xs) = drop_all xs

-- a buffer that is filled whole
pub overwrite_whole :
    (buffer bytes : List ℕ) → length bytes ≡ length buffer → overwrite buffer bytes ≡ bytes
overwrite_whole buffer bytes h = rw (h, drop_all) (append-nil bytes)

-- the calls for one entry of `size` bytes, inside a sector, by a thread that runs alone
module _ {S : Type 0} (d : Driver S) (c : Core S) (e m f a : ℕ) where
  pub writeoff_once :
      (sa off : ℕ) (bytes : List ℕ) (size : ℕ)
      → length bytes ≡ size
      → 0 < size
      → off + size ≤ c.sector_size
      → writeoff_sectors d sa off bytes size 1 (at_rest c e m f a)
        ≡ let w = d.write_sector c.store sa off bytes in
          (not (w.0 == 0), at_rest (record c { store = w.1 }) e m f a)
  writeoff_once sa off bytes size len p h = rw (← len) (
      writeoff-at_rest d c e m f a sa off bytes (length bytes) 1
      ∙ ap (λ (w : Bool × S). (w.0, at_rest (record c { store = w.1 }) e m f a))
          (write_once d c.sector_size c.store sa off bytes (omega arith) (omega arith)))

  pub readoff_once :
      (sa off : ℕ) (bytes buffer : List ℕ) (size : ℕ)
      → length bytes ≡ size
      → 0 < size
      → off + size ≤ c.sector_size
      → Holds d c.sector_size c.store sa off bytes
      → readoff_sectors d sa off buffer size 1 (at_rest c e m f a)
        ≡ ((true, overwrite buffer bytes), at_rest c e m f a)
  readoff_once sa off bytes buffer size len p h held = rw (← len) (
      readoff-at_rest d c e m f a sa off buffer (length bytes) 1
      ∙ ap (λ (r : Bool × List ℕ). (r, at_rest c e m f a))
          (read_once d c.sector_size c.store sa off bytes buffer (omega arith) (omega arith) held))
