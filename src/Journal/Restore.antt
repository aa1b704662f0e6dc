-- ===== src/Journal/Restore.antt =====
-- src/journal.c, `restore_from_journal`: its loop, whose counter is an `unsigned char`.
use ni_fat.Base.{ℕ, zero, suc, ◌+◌, ◌<◌, ◌≤◌, ◌==◌, ltb, ◌≡◌, ◌≢◌, refl, arith, true, false, not}
use ni_fat.Base.{none, pick, Bool-cases, Option-cases, inl, inr, u8}
use ni_fat.State.{FatData, State, Driver}
use ni_fat.Layout.{JournalEntry}
use ni_fat.Journal.{
  capacity, restore_entry, restore_loop, Logged, take_journal_lock, restore_from_journal,
}

module _ {S : Type 0} (d : Driver S) (fi : FatData) (residue : ℕ → ℕ) (old : ℕ → JournalEntry) where
  restore_loop-ends :
      (fuel index : ℕ) (s : State S)
      → capacity fi < 256
      → index ≤ capacity fi
      → capacity fi < fuel + index
      → restore_loop d fi residue old fuel index s ≢ none
  unfolding restore_loop
  restore_loop-ends zero index s small inside enough = absurd (omega arith)
  restore_loop-ends (suc fuel) index s small inside enough =
      elim (Bool-cases (ltb index (capacity fi))) [
        | inl more ↦
            rw (more, restore_loop)
              (restore_loop-ends fuel (u8 (index + 1))
                (restore_entry d fi (residue index) (old index) index s) small (ground arith)
                (ground arith))
        | inr past ↦ rw (past, restore_loop) (λ e. cc)
      ]

  restore_loop-stuck :
      (fuel index : ℕ) (s : State S)
      → 255 < capacity fi
      → index < 256
      → restore_loop d fi residue old fuel index s ≡ none
  unfolding restore_loop
  restore_loop-stuck zero index s large byte = refl
  restore_loop-stuck (suc fuel) index s large byte =
      let inside : ltb index (capacity fi) ≡ true = ground arith in
      rw (inside, restore_loop)
        (restore_loop-stuck fuel (u8 (index + 1))
          (restore_entry d fi (residue index) (old index) index s) large (omega arith))

  -- `restore_from_journal` comes to an end, within one test of its loop's condition more than there
  -- are entries, if the journal has less than 256 of them.
  pub restore_from_journal-ends :
      (fuel : ℕ) (l : Logged S)
      → capacity fi < 256
      → capacity fi < fuel
      → restore_from_journal d fi residue old fuel l ≢ none
  unfolding restore_from_journal
  restore_from_journal-ends fuel l small enough =
      let (held, l1) = take_journal_lock l in
      let ends = restore_loop-ends fuel 0 l1.state small (omega arith) (omega arith) in
      elim (Option-cases (restore_loop d fi residue old fuel 0 l1.state)) [
        | inl never ↦ absurd (ends never)
        | inr (s, e) ↦
            rw (e, restore_from_journal)
              (pick (λ o. o ≢ none) (fi.journals_count == 0) _ _ (λ q. cc)
                (pick (λ o. o ≢ none) (not held) _ _ (λ q. cc) (λ q. cc)))
      ]

  -- Where there are copies and `_journal_lock` is free, `restore_from_journal` comes to no end in any
  -- number of rounds, if the journal has more than 255 entries: its counter wraps before it is past
  -- them.
  pub restore_from_journal-stuck :
      (fuel : ℕ) (l : Logged S)
      → 255 < capacity fi
      → 0 < fi.journals_count
      → (take_journal_lock l).0 ≡ true
      → restore_from_journal d fi residue old fuel l ≡ none
  unfolding restore_from_journal
  restore_from_journal-stuck fuel l large copies held =
      let some_copies : (fi.journals_count == 0) ≡ false = ground arith in
      rw
        (
          some_copies,
          held,
          restore_loop-stuck fuel 0 (take_journal_lock l).1.state large (omega arith),
        )
        refl
