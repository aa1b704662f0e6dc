-- ===== src/Api/Writing/Ends.antt =====
-- nifat32.c: the loops of NIFAT32_write_buffer2content come to their ends, on any chain.
use ni_fat.Base.{
  ℕ, zero, suc, ◌+◌, ◌-◌, ◌<◌, ◌≤◌, ◌==◌, ltb, ◌||◌, ◌≡◌, refl, arith, Bool, true, false,
  Bool-cases, ◌⊎◌, inl, inr, List, drop, Option, none, some,
}
use ni_fat.State.{FatData, State, Driver}
use ni_fat.Strings.{ℤ}
use ni_fat.Fat.{cluster_bad, read_fat}
use ni_fat.Content.Access.{get_content_mode, get_content_data_ca}
use ni_fat.Api.Defs.{World, Host, is_over, is_write_mode}
use ni_fat.Api.Defs.Lock.{resting, locked-resting}
use ni_fat.Api.Chains.{add_cluster_to_content}
use ni_fat.Api.Reading.{portion, Moved}
use ni_fat.Api.Reading.Ends.{Advances, portion-le, portion-Advances, skip-Advances}
use ni_fat.Api.Writing.{
  Progress, write_part, write_step, write_loop, extend_step, extend_loop, write_on, write_chain,
  write_content, write_buffer2content,
}

-- what is left after the first loop of `size` bytes from `offset` on
abbrev pub Continues : ℕ → ℕ → ℕ → Option Progress → Type 0
Continues offset size total none = Unit {0}
Continues offset size total (some p) =
    (p.offset + p.size ≤ offset + size) × (p.total + p.size ≡ total + size)

Continues-later :
    (offset size total o z t : ℕ) (r : Option Progress)
    → o + z ≤ offset + size
    → t + z ≡ total + size
    → Continues o z t r
    → Continues offset size total r
Continues-later offset size total o z t none h k c = tt
Continues-later offset size total o z t (some p) h k c = omega arith

-- a round of the second loop has less to go
shorter :
    (offset size : ℕ) (m : Moved) (fuel : ℕ)
    → offset + size < suc fuel
    → (size == 0) ≡ false
    → Advances offset size m
    → (size - m.count ≡ 0) ⊎ (m.offset + (size - m.count) < offset + size)
    → m.offset + (size - m.count) < fuel
shorter offset size m fuel enough more moves (inl all) = ground arith
shorter offset size m fuel enough more moves (inr less) = omega arith

module _ {S : Type 0} (d : Driver S) (fi : FatData) (room : 0 < fi.cluster_size) where
  write_part-Advances :
      (offset size : ℕ) (r : Bool × State S)
      → ltb fi.cluster_size offset ≡ false
      → Advances offset size (write_part d fi (portion fi offset size) r).0
  unfolding write_part
  write_part-Advances offset size (true, s) here = (
    portion-le fi room offset size,
    omega arith,
    λ fine. portion-Advances fi room offset size here,
  )
  write_part-Advances offset size (false, s) here = (omega arith, omega arith, λ fine. cc)

  write_step-Advances :
      (ca offset : ℕ) (bytes : List ℕ) (size : ℕ) (s : State S)
      → Advances offset size (write_step d fi ca offset bytes size s).0
  unfolding write_step
  write_step-Advances ca offset bytes size s = elim (Bool-cases (ltb fi.cluster_size offset)) [
    | inl past ↦
        rw (past, write_step)
          (omega arith, omega arith, λ fine. skip-Advances fi room offset size past)
    | inr here ↦ rw (here, write_step) (write_part-Advances offset size _ here)
  ]

  extend_step-Advances :
      (ca offset : ℕ) (bytes : List ℕ) (size : ℕ) (s : State S)
      → let m = (extend_step d fi ca offset bytes size s).0 in
        Advances offset size m × (m.fine ≡ true)
  unfolding extend_step
  extend_step-Advances ca offset bytes size s = elim (Bool-cases (ltb fi.cluster_size offset)) [
    | inl past ↦
        rw (past, extend_step)
          ((omega arith, omega arith, λ fine. skip-Advances fi room offset size past), refl)
    | inr here ↦
        rw (here, extend_step)
          (
            (
              portion-le fi room offset size,
              omega arith,
              λ fine. portion-Advances fi room offset size here,
            ),
            refl,
          )
  ]

  write_loop-Ends :
      (fuel ca offset : ℕ) (bytes : List ℕ) (size total : ℕ) (s : State S)
      → offset + size < fuel
      → (r : Option Progress) × (s' : State S) × (write_loop d fi fuel ca offset bytes size total s
          ≡ some (r, s'))
        × Continues offset size total r
  unfolding write_loop
  write_loop-Ends zero ca offset bytes size total s enough = absurd (omega arith)
  write_loop-Ends (suc fuel) ca offset bytes size total s enough =
      let step = write_step d fi ca offset bytes size s in
      let m : Moved = step.0 in
      let moves : Advances offset size m = write_step-Advances ca offset bytes size s in
      let after = read_fat d fi ca step.1 in
      elim (Bool-cases m.fine) [
        | inr bad ↦ rw (bad, write_loop) (none, step.1, refl, tt)
        | inl good ↦ elim (Bool-cases (is_over after.0 || size - m.count == 0)) [
          | inl over ↦ rw (good, over, write_loop) (_, after.1, refl, (omega arith, omega arith))
          | inr on ↦
              let (r, s', e, more) =
                write_loop-Ends fuel after.0 m.offset (drop m.count bytes) (size - m.count)
                  (total + m.count) after.1 (ground (arith, moves.2 good)) in
              rw (good, on, e, write_loop)
                (
                  r,
                  s',
                  refl,
                  Continues-later offset size total m.offset (size - m.count) (total + m.count) r
                      (omega arith) (omega arith) more,
                )
        ]
      ]

  extend_loop-Ends :
      (fuel first : ℕ) (p : Progress) (s : State S)
      → p.offset + p.size < fuel
      → (n : ℕ) × (s' : State S) × (extend_loop d fi fuel first p s ≡ some (n, s'))
        × (p.total ≤ n)
        × (n ≤ p.total + p.size)
  unfolding extend_loop
  extend_loop-Ends zero first p s enough = absurd (omega arith)
  extend_loop-Ends (suc fuel) first p s enough =
      let added = add_cluster_to_content d fi first p.last s in
      let step = extend_step d fi added.0 p.offset p.left p.size added.1 in
      let m : Moved = step.0 in
      let (moves, fine) = extend_step-Advances added.0 p.offset p.left p.size added.1 in
      elim (Bool-cases (p.size == 0)) [
        | inl done ↦ rw (done, extend_loop) (p.total, s, refl, omega arith, omega arith)
        | inr more ↦ elim (Bool-cases (added.0 == cluster_bad)) [
          | inl bad ↦ rw (more, bad, extend_loop) (p.total, added.1, refl, omega arith, omega arith)
          | inr good ↦
              let p' : Progress = record {
                last = added.0;
                offset = m.offset;
                left = drop m.count p.left;
                size = p.size - m.count;
                total = p.total + m.count;
              } in
              let (n, s', e, low, high) =
                extend_loop-Ends fuel first p' step.1
                  (shorter p.offset p.size m fuel enough more moves (moves.2 fine)) in
              rw (more, good, e, extend_loop) (n, s', refl, omega arith, omega arith)
        ]
      ]

  write_chain-Ends :
      (fuel ca offset : ℕ) (bytes : List ℕ) (size : ℕ) (s : State S)
      → offset + size < fuel
      → (n : ℕ) × (s' : State S) × (write_chain d fi fuel ca offset bytes size s ≡ some (n, s'))
        × (n ≤ size)
  unfolding write_chain write_on
  write_chain-Ends fuel ca offset bytes size s enough =
      let (r, s', e, goes) = write_loop-Ends fuel ca offset bytes size 0 s enough in
      rw e (write_on-Ends fuel ca offset size r s' enough goes)
    where
      write_on-Ends :
          (fuel first offset size : ℕ) (r : Option Progress) (s' : State S)
          → offset + size < fuel
          → Continues offset size 0 r
          → (n : ℕ) × (t : State S) × (write_on d fi fuel first (some (r, s')) ≡ some (n, t))
            × (n ≤ size)
      write_on-Ends fuel first offset size none s' enough goes = (0, s', refl, omega arith)
      write_on-Ends fuel first offset size (some p) s' enough goes =
          let (n, t, e, low, high) = extend_loop-Ends fuel first p s' (omega arith) in
          (n, t, e, omega arith)

module _ {S T : Type 0} (h : Host S T) (fi : FatData) where
  write_content-Ends :
      (ci : ℤ) (offset : ℕ) (bytes : List ℕ) (size : ℕ) (w : World S T)
      → 0 < fi.cluster_size
      → offset + size < h.fuel
      → (r : ℕ × World S T) × (write_content h fi ci offset bytes size w ≡ some r)
        × (r.0 ≤ size)
        × (r.1.table ≡ w.table)
  unfolding write_content
  write_content-Ends ci offset bytes size w room enough =
      elim (Bool-cases (is_write_mode (get_content_mode ci w.table))) [
        | inr refused ↦ rw (refused, write_content) (_, refl, omega arith, refl)
        | inl open_to ↦
            let (n, s, e, le) =
              write_chain-Ends h.driver fi room h.fuel (get_content_data_ca ci w.table) offset bytes
                size w.logged.state enough in
            rw (open_to, e, write_content) (_, refl, le, refl)
      ]

  -- Whatever the chain of the content is, a circle included, and whatever the device, the allocator
  -- and the other locks do, NIFAT32_write_buffer2content returns, with at most `offset + size + 1`
  -- rounds in each of its loops, a count that is at most the size; its lock is free again and the table
  -- of open content is as it was. A cluster has a byte at least.
  pub write_buffer2content-ends :
      (ci : ℤ) (offset : ℕ) (bytes : List ℕ) (size : ℕ) (w : World S T)
      → 0 < fi.cluster_size
      → offset + size < h.fuel
      → (n : ℕ) × (w' : World S T) × (write_buffer2content h fi ci offset bytes size (resting w)
          ≡ some (n, resting w'))
        × (n ≤ size)
        × (w'.table ≡ w.table)
  unfolding write_buffer2content
  write_buffer2content-ends ci offset bytes size w room enough =
      let (r, e, le, same) = write_content-Ends ci offset bytes size w room enough in
      (r.0, r.1, locked-resting 0 (write_content h fi ci offset bytes size) w r e, le, same)
