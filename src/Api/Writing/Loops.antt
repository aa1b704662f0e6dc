-- ===== src/Api/Writing/Loops.antt =====
-- nifat32.c: the loops of a read and a write, a round at a time, with a cache that knows the next cluster.
use ni_fat.Base.{
  ℕ, suc, ◌+◌, ◌-◌, ◌==◌, ◌||◌, ◌≡◌, refl, ap, ◌∙◌, true, false, List, ◌++◌, length, take, drop,
  none, some,
}
use ni_fat.State.{FatData, Core, State, Driver, ready}
use ni_fat.Fat.{known, is_outside, read_fat}
use ni_fat.Api.Defs.{is_over}
use ni_fat.Api.Reading.{Moved, Total, read_step, read_loop}
use ni_fat.Api.Writing.{Progress, write_step, write_loop}
use ni_fat.Api.Writing.Rounds.{read_fat-known, at}

module _ {S : Type 0} (d : Driver S) (fi : FatData) (c : Core S) where
  module _ (fuel : ℕ) (t1 : S) (ca next offset size total : ℕ) (m : Moved)
      (inside : is_outside fi ca ≡ false) (cached : known ca c.fat ≡ some next)
      (fine : m.fine ≡ true) where
    -- what the loop of a write keeps after the round
    unfoldable pub progress : List ℕ → Progress
    progress bytes = record {
      last = ca;
      offset = m.offset;
      left = drop m.count bytes;
      size = size - m.count;
      total = total + m.count;
    }

    pub write_ends :
        (bytes : List ℕ) (s : State S)
        → write_step d fi ca offset bytes size s ≡ (m, ready (at d fi c t1))
        → (is_over next || size - m.count == 0) ≡ true
        → write_loop d fi (suc fuel) ca offset bytes size total s
          ≡ some (some (progress bytes), ready (at d fi c t1))
    unfolding write_loop progress
    write_ends bytes s e over =
        let good = ap (λ (r : Moved × State S). r.0.fine) e ∙ fine in
        let step = write_step d fi ca offset bytes size s in
        let test : (is_over (read_fat d fi ca step.1).0 || size - step.0.count == 0) ≡ true =
          rw e (rw (read_fat-known d fi (at d fi c t1) ca next inside cached) over) in
        rw (good, test, write_loop)
          (rw e (rw (read_fat-known d fi (at d fi c t1) ca next inside cached) refl))

    pub write_goes :
        (bytes : List ℕ) (s : State S)
        → write_step d fi ca offset bytes size s ≡ (m, ready (at d fi c t1))
        → (is_over next || size - m.count == 0) ≡ false
        → write_loop d fi (suc fuel) ca offset bytes size total s
          ≡ write_loop d fi fuel next m.offset
              (drop m.count bytes)
              (size - m.count)
              (total + m.count)
              (ready (at d fi c t1))
    unfolding write_loop
    write_goes bytes s e on =
        let good = ap (λ (r : Moved × State S). r.0.fine) e ∙ fine in
        let step = write_step d fi ca offset bytes size s in
        let test : (is_over (read_fat d fi ca step.1).0 || size - step.0.count == 0) ≡ false =
          rw e (rw (read_fat-known d fi (at d fi c t1) ca next inside cached) on) in
        rw (good, test, write_loop)
          (rw e (rw (read_fat-known d fi (at d fi c t1) ca next inside cached) refl))

    pub read_ends :
        (buffer filled : List ℕ) (s : State S)
        → read_step d fi ca offset buffer size s ≡ ((m, filled), ready (at d fi c t1))
        → (is_over next || size - m.count == 0) ≡ true
        → read_loop d fi (suc fuel) ca offset buffer size total s
          ≡ some ((some (total + m.count), filled), ready (at d fi c t1))
    unfolding read_loop
    read_ends buffer filled s e over =
        let good = ap (λ (r : (Moved × List ℕ) × State S). r.0.0.fine) e ∙ fine in
        let step = read_step d fi ca offset buffer size s in
        let test : (is_over (read_fat d fi ca step.1).0 || size - step.0.0.count == 0) ≡ true =
          rw e (rw (read_fat-known d fi (at d fi c t1) ca next inside cached) over) in
        rw (good, test, read_loop)
          (rw e (rw (read_fat-known d fi (at d fi c t1) ca next inside cached) refl))

    pub read_goes :
        (buffer filled : List ℕ) (s : State S) (r : Total) (s' : State S)
        → read_step d fi ca offset buffer size s ≡ ((m, filled), ready (at d fi c t1))
        → (is_over next || size - m.count == 0) ≡ false
        → read_loop d fi fuel next m.offset
            (drop m.count filled)
            (size - m.count)
            (total + m.count)
            (ready (at d fi c t1))
          ≡ some (r, s')
        → read_loop d fi (suc fuel) ca offset buffer size total s
          ≡ some ((r.0, take m.count filled ++ r.1), s')
    unfolding read_loop
    read_goes buffer filled s r s' e on more =
        let good = ap (λ (r : (Moved × List ℕ) × State S). r.0.0.fine) e ∙ fine in
        let step = read_step d fi ca offset buffer size s in
        let test : (is_over (read_fat d fi ca step.1).0 || size - step.0.0.count == 0) ≡ false =
          rw e (rw (read_fat-known d fi (at d fi c t1) ca next inside cached) on) in
        let inner : read_loop d fi fuel (read_fat d fi ca step.1).0 step.0.0.offset
              (drop step.0.0.count step.0.1) (size - step.0.0.count) (total + step.0.0.count)
              (read_fat d fi ca step.1).1
            ≡ some (r, s') =
          rw e (rw (read_fat-known d fi (at d fi c t1) ca next inside cached) more) in
        rw (good, test, inner, read_loop) (rw e refl)

  -- a round that fails
  pub write_fails :
      (fuel : ℕ) (t : S) (ca offset : ℕ) (bytes : List ℕ) (total : ℕ)
      → let r = write_step d fi ca offset bytes (length bytes) (ready (at d fi c t)) in
        r.0.fine ≡ false
        → write_loop d fi (suc fuel) ca offset bytes (length bytes) total (ready (at d fi c t))
          ≡ some (none, r.1)
  unfolding write_loop
  write_fails fuel t ca offset bytes total bad = rw (bad, write_loop) refl
