-- ===== src/Api/Reading/Ends.antt =====
-- nifat32.c: the loop of NIFAT32_read_content2buffer comes to its end, on any chain.
use ni_fat.Base.{
  ℕ, zero, suc, ◌+◌, ◌-◌, ◌<◌, ◌≤◌, ◌==◌, ltb, ◌||◌, ◌≡◌, refl, arith, Bool, true, false,
  Bool-cases, ◌⊎◌, inl, inr, List, ◌++◌, take, drop, Option, none, some,
}
use ni_fat.State.{FatData, State, Driver}
use ni_fat.Strings.{ℤ}
use ni_fat.Fat.{read_fat}
use ni_fat.Content.Access.{get_content_mode, get_content_data_ca}
use ni_fat.Api.Defs.{World, Host, is_over, is_read_mode}
use ni_fat.Api.Defs.Lock.{resting, locked-resting}
use ni_fat.Api.Reading.{
  portion, Moved, Total, answer, read_part, read_step, read_loop, read_content, read_content2buffer,
}

-- What a round leaves to do: not more bytes than were given, and less to go, unless nothing is left.
abbrev pub Advances : ℕ → ℕ → Moved → Type 0
Advances offset size m =
    (m.count ≤ size)
    × (m.offset ≤ offset)
    × (m.fine ≡ true → (size - m.count ≡ 0) ⊎ (m.offset + (size - m.count) < offset + size))

module _ (fi : FatData) (room : 0 < fi.cluster_size) where
  pub portion-le : (offset size : ℕ) → portion fi offset size ≤ size
  unfolding portion
  portion-le offset size = ground arith

  pub portion-Advances :
      (offset size : ℕ)
      → ltb fi.cluster_size offset ≡ false
      → let n = portion fi offset size in (size - n ≡ 0) ⊎ (0 + (size - n) < offset + size)
  unfolding portion
  portion-Advances offset size here = elim (Bool-cases (ltb (fi.cluster_size - offset) size)) [
    | inl more ↦ rw more (inr (ground arith))
    | inr all ↦ rw all (inl (omega arith))
  ]

  pub skip-Advances :
      (offset size : ℕ)
      → ltb fi.cluster_size offset ≡ true
      → (size - 0 ≡ 0) ⊎ (offset - fi.cluster_size + (size - 0) < offset + size)
  skip-Advances offset size past = inr (ground arith)

-- the total that a loop returns, if it does
abbrev pub Within : ℕ → ℕ → Total → Type 0
Within total size (none, buffer) = Unit {0}
Within total size (some n, buffer) = (total ≤ n) × (n ≤ total + size)

Within-later :
    (total size n : ℕ) (filled : List ℕ) (r : Total)
    → n ≤ size
    → Within (total + n) (size - n) r
    → Within total size (r.0, take n filled ++ r.1)
Within-later total size n filled (none, buffer) h k = tt
Within-later total size n filled (some m, buffer) h k = (omega arith, omega arith)

abbrev pub Ends : {S : Type 0} → ℕ → ℕ → Option (Total × State S) → Type 0
Ends {S} total size o = (r : Total) × (s : State S) × (o ≡ some (r, s)) × Within total size r

module _ {S : Type 0} (d : Driver S) (fi : FatData) (room : 0 < fi.cluster_size) where
  read_part-Advances :
      (offset size : ℕ) (r : (Bool × List ℕ) × State S)
      → ltb fi.cluster_size offset ≡ false
      → Advances offset size (read_part d fi (portion fi offset size) r).0.0
  unfolding read_part
  read_part-Advances offset size ((true, filled), s) here = (
    portion-le fi room offset size,
    omega arith,
    λ fine. portion-Advances fi room offset size here,
  )
  read_part-Advances offset size ((false, filled), s) here = (omega arith, omega arith, λ fine. cc)

  read_step-Advances :
      (ca offset : ℕ) (buffer : List ℕ) (size : ℕ) (s : State S)
      → Advances offset size (read_step d fi ca offset buffer size s).0.0
  unfolding read_step
  read_step-Advances ca offset buffer size s = elim (Bool-cases (ltb fi.cluster_size offset)) [
    | inl past ↦
        rw (past, read_step)
          (omega arith, omega arith, λ fine. skip-Advances fi room offset size past)
    | inr here ↦ rw (here, read_step) (read_part-Advances offset size _ here)
  ]

  read_loop-Ends :
      (fuel ca offset : ℕ) (buffer : List ℕ) (size total : ℕ) (s : State S)
      → offset + size < fuel
      → Ends total size (read_loop d fi fuel ca offset buffer size total s)
  unfolding read_loop
  read_loop-Ends zero ca offset buffer size total s enough = absurd (omega arith)
  read_loop-Ends (suc fuel) ca offset buffer size total s enough =
      let step = read_step d fi ca offset buffer size s in
      let m : Moved = step.0.0 in
      let moves : Advances offset size m = read_step-Advances ca offset buffer size s in
      let after = read_fat d fi ca step.1 in
      elim (Bool-cases m.fine) [
        | inr bad ↦ rw (bad, read_loop) ((none, step.0.1), step.1, refl, tt)
        | inl good ↦ elim (Bool-cases (is_over after.0 || size - m.count == 0)) [
          | inl over ↦
              rw (good, over, read_loop)
                ((some (total + m.count), step.0.1), after.1, refl, (omega arith, omega arith))
          | inr on ↦
              let more =
                read_loop-Ends fuel after.0 m.offset (drop m.count step.0.1) (size - m.count)
                  (total + m.count) after.1 (ground (arith, moves.2 good)) in
              let (r, s', e, within) = more in
              rw (good, on, e, read_loop)
                (
                  (r.0, take m.count step.0.1 ++ r.1),
                  s',
                  refl,
                  Within-later total size m.count step.0.1 r moves.0 within,
                )
        ]
      ]

answer-le : (size : ℕ) (r : Total) → Within 0 size r → (answer r).0 ≤ size
answer-le size (none, buffer) k = omega arith
answer-le size (some n, buffer) k = omega arith

module _ {S T : Type 0} (h : Host S T) (fi : FatData) where
  -- the result of a read, with its lock held
  pub read_content-Ends :
      (ci : ℤ) (offset : ℕ) (buffer : List ℕ) (size : ℕ) (w : World S T)
      → 0 < fi.cluster_size
      → offset + size < h.fuel
      → (r : (ℕ × List ℕ) × World S T) × (read_content h fi ci offset buffer size w ≡ some r)
        × (r.0.0 ≤ size)
        × (r.1.table ≡ w.table)
  unfolding read_content
  read_content-Ends ci offset buffer size w room enough =
      elim (Bool-cases (is_read_mode (get_content_mode ci w.table))) [
        | inr refused ↦ rw (refused, read_content) (_, refl, omega arith, refl)
        | inl open_to ↦
            let (r, s, e, within) =
              read_loop-Ends h.driver fi room h.fuel (get_content_data_ca ci w.table) offset buffer
                size 0 w.logged.state enough in
            rw (open_to, e, read_content) (_, refl, answer-le size r within, refl)
      ]

  -- Whatever the chain of the content is, a circle included, and whatever the device and the other
  -- locks do, NIFAT32_read_content2buffer returns, in at most `offset + size + 1` rounds of its loop,
  -- a count that is at most the size; its lock is free again and the table of open content is as it
  -- was. A cluster has a byte at least.
  pub read_content2buffer-ends :
      (ci : ℤ) (offset : ℕ) (buffer : List ℕ) (size : ℕ) (w : World S T)
      → 0 < fi.cluster_size
      → offset + size < h.fuel
      → (r : ℕ × List ℕ) × (w' : World S T) × (read_content2buffer h fi ci offset buffer size
            (resting w)
          ≡ some (r, resting w'))
        × (r.0 ≤ size)
        × (w'.table ≡ w.table)
  unfolding read_content2buffer
  read_content2buffer-ends ci offset buffer size w room enough =
      let (r, e, le, same) = read_content-Ends ci offset buffer size w room enough in
      (
        r.0,
        r.1,
        locked-resting (0, buffer) (read_content h fi ci offset buffer size) w r e,
        le,
        same,
      )
