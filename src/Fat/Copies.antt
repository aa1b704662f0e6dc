-- ===== src/Fat/Copies.antt =====
-- src/fat.c: the transfers of an entry's copies, by a thread that runs alone.
use ni_fat.Base.{
  ℕ, zero, suc, ◌+◌, ◌%◌, ◌<◌, ◌≤◌, ◌==◌, ◌≡◌, refl, sym, ap, ◌∙◌, arith, Bool, true, false,
}
use ni_fat.Base.{◌&&◌, not, List, [], ◌∷◌, length, replicate, Bool-cases, inl, inr, ◌≢◌, ne→==}
use mathlib.Core.Bool.{true≢false}
use ni_fat.State.{FatData, Core, State, Driver}
use ni_fat.Vote.{Vote, step, votes}
use ni_fat.Hamming.Buffer.{le32, packed}
use ni_fat.Hamming.Buffer.Roundtrip.{unpacked_value, length-packed-le32}
use ni_fat.Disk.Sectors.{at_rest}
use ni_fat.Disk.Single.{Holds, writeoff_once, readoff_once, overwrite_whole}
use ni_fat.Disk.Copies.{put_copies}
use ni_fat.Fat.{
  entry_sector, entry_pos, report_write, write_fat_copy, write_fat_copies, report_read,
  read_fat_copy, read_fat_copies,
}

module _ {S : Type 0} (d : Driver S) (fi : FatData) where
  -- the place of an entry's copies
  abbrev pub entry_off : ℕ → ℕ
  entry_off ca = entry_pos ca % fi.bytes_per_sector

  -- copy `j` of the entry holds the value
  abbrev pub Copy : Core S → ℕ → ℕ → ℕ → Type 0
  Copy c ca value j =
      Holds d c.sector_size c.store (entry_sector fi ca j) (entry_off ca) (packed (le32 value))

  abbrev pub put : ℕ → ℕ → ℕ → ℕ → S → Bool × S
  put ca value = put_copies d (entry_off ca) (packed (le32 value)) (entry_sector fi ca)

  -- the copies from number `i` on hold these values
  abbrev pub CopiesHold : Core S → ℕ → ℕ → List ℕ → Type 0
  CopiesHold c ca i [] = Unit
  CopiesHold c ca i (x ∷ xs) = (x < 0x10000000) × Copy c ca x i × CopiesHold c ca (i + 1) xs

  module _ (c : Core S) (e m f a ca : ℕ) (fits : entry_off ca + 8 ≤ c.sector_size) where
    read_fat_copy-at_rest :
        (value j : ℕ)
        → value < 0x10000000
        → Copy c ca value j
        → read_fat_copy d fi ca j (at_rest c e m f a) ≡ (value, at_rest c e m f a)
    unfolding read_fat_copy report_read
    read_fat_copy-at_rest value j short held =
        rw
          (readoff_once d c e m f a (entry_sector fi ca j) (entry_off ca) (packed (le32 value))
            (replicate 8 0) 8 (length-packed-le32 value) (omega arith) fits held)
          (rw (overwrite_whole (replicate 8 0) (packed (le32 value)) (length-packed-le32 value)) (
            rw (unpacked_value value (omega arith))
              (ap (λ (x : ℕ). (x, at_rest c e m f a)) (omega arith))))

    -- the loop of `read_fat` is the vote over what the copies hold
    pub read_fat_copies-at_rest :
        (xs : List ℕ) (i : ℕ) (v : Vote)
        → CopiesHold c ca i xs
        → read_fat_copies d fi ca (length xs) i v (at_rest c e m f a)
          ≡ (votes v xs, at_rest c e m f a)
    unfolding read_fat_copies votes
    read_fat_copies-at_rest [] i v h = refl
    read_fat_copies-at_rest (x ∷ xs) i v h =
        ap (λ (r : ℕ × State S). read_fat_copies d fi ca (length xs) (i + 1) (step v r.0) r.1)
          (read_fat_copy-at_rest x i h.0 h.1)
        ∙ read_fat_copies-at_rest xs (i + 1) (step v x) h.2

  write_fat_copy-at_rest :
      (c : Core S) (e m f a ca value j : ℕ)
      → entry_off ca + 8 ≤ c.sector_size
      → write_fat_copy d fi ca value j (at_rest c e m f a)
        ≡ let w =
            d.write_sector c.store (entry_sector fi ca j) (entry_off ca) (packed (le32 value)) in
          report_write d fi (not (w.0 == 0), at_rest (record c { store = w.1 }) e m f a)
  unfolding write_fat_copy
  write_fat_copy-at_rest c e m f a ca value j fits = ap (report_write d fi) (
      writeoff_once d c e m f a (entry_sector fi ca j) (entry_off ca) (packed (le32 value)) 8
        (length-packed-le32 value) (omega arith) fits)

  report_write-status : (b : Bool) (s : State S) → (report_write d fi (b, s)).0 ≡ b
  unfolding report_write
  report_write-status true s = refl
  report_write-status false s = refl

  -- a failed copy makes the result 0
  write_fat_copies-failed :
      (ca value n i : ℕ) (s : State S) → (write_fat_copies d fi ca value n i false s).0 ≡ false
  unfolding write_fat_copies
  write_fat_copies-failed ca value zero i s = refl
  write_fat_copies-failed ca value (suc n) i s =
      let (w, s') = write_fat_copy d fi ca value i s in
      ap (λ (b : Bool). (write_fat_copies d fi ca value n (i + 1) b s').0) (and_false w)
      ∙ write_fat_copies-failed ca value n (i + 1) s'
    where
      and_false : (b : Bool) → (b && false) ≡ false
      and_false true = refl
      and_false false = refl

  -- where the loop reports success, it made all its writes
  pub write_fat_copies-at_rest :
      (c : Core S) (e m f a ca value n i : ℕ)
      → entry_off ca + 8 ≤ c.sector_size
      → (write_fat_copies d fi ca value n i true (at_rest c e m f a)).0 ≡ true
      → let p = put ca value n i c.store in
        (p.0 ≡ true)
        × (write_fat_copies d fi ca value n i true (at_rest c e m f a)
            ≡ (true, at_rest (record c { store = p.1 }) e m f a))
  unfolding write_fat_copies put_copies
  write_fat_copies-at_rest c e m f a ca value zero i fits ok = (refl, refl)
  write_fat_copies-at_rest c e m f a ca value (suc n) i fits ok =
      let w : ℕ × S =
        d.write_sector c.store (entry_sector fi ca i) (entry_off ca) (packed (le32 value)) in
      let c' : Core S = record c { store = w.1 } in
      let rest : Bool × State S → Bool × State S =
        λ r. write_fat_copies d fi ca value n (i + 1) (r.0 && true) r.1 in
      let run = write_fat_copy-at_rest c e m f a ca value i fits in
      elim (Bool-cases (not (w.0 == 0))) [
        | inl q ↦
            let copy : write_fat_copy d fi ca value i (at_rest c e m f a)
                ≡ (true, at_rest c' e m f a) =
              run
              ∙ ap (λ (b : Bool). report_write d fi (b, at_rest c' e m f a)) q
              ∙ (unfold report_write in refl) in
            let go =
              write_fat_copies-at_rest c' e m f a ca value n (i + 1) fits
                (sym (ap (λ (r : Bool × State S). r.0) (ap rest copy)) ∙ ok) in
            (rw q go.0, ap rest copy ∙ go.1)
        | inr q ↦
            let bad : (write_fat_copy d fi ca value i (at_rest c e m f a)).0 ≡ false =
              ap (λ (r : Bool × State S). r.0) run ∙ report_write-status _ _ ∙ q in
            let lost =
              ap
                (λ (b : Bool).
                  (write_fat_copies d fi ca value n (i + 1) (b && true)
                    (write_fat_copy d fi ca value i (at_rest c e m f a)).1).0)
                bad
              ∙ write_fat_copies-failed ca value n (i + 1) _ in
            absurd (true≢false (sym ok ∙ lost))
      ]

  -- on a device that takes every write, the loop reports success
  pub write_fat_copies_total :
      (c : Core S) (e m f a ca value n i : ℕ)
      → entry_off ca + 8 ≤ c.sector_size
      → ((t : S) (sa off : ℕ) (bytes : List ℕ) → (d.write_sector t sa off bytes).0 ≢ 0)
      → (write_fat_copies d fi ca value n i true (at_rest c e m f a)).0 ≡ true
  unfolding write_fat_copies
  write_fat_copies_total c e m f a ca value zero i fits takes = refl
  write_fat_copies_total c e m f a ca value (suc n) i fits takes =
      let w : ℕ × S =
        d.write_sector c.store (entry_sector fi ca i) (entry_off ca) (packed (le32 value)) in
      let c' : Core S = record c { store = w.1 } in
      let done : not (w.0 == 0) ≡ true = ap not (ne→== (takes _ _ _ _)) in
      let copy : write_fat_copy d fi ca value i (at_rest c e m f a) ≡ (true, at_rest c' e m f a) =
        write_fat_copy-at_rest c e m f a ca value i fits
        ∙ ap (λ (b : Bool). report_write d fi (b, at_rest c' e m f a)) done
        ∙ (unfold report_write in refl) in
      ap (λ (r : Bool × State S). (write_fat_copies d fi ca value n (i + 1) (r.0 && true) r.1).0)
        copy
      ∙ write_fat_copies_total c' e m f a ca value n (i + 1) fits takes
