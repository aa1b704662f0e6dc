-- ===== src/Journal/Stored.antt =====
-- src/journal.c: what is read of an entry that was written, and what a restore does with it.
use ni_fat.Base.{ℕ, suc, ◌+◌, ◌*◌, ◌≤◌, ◌≡◌, ◌≢◌, refl, sym, ap, ◌∙◌, arith, true, false}
use ni_fat.Base.{List, [], ◌∷◌, length, replicate, length-replicate, Option, none, some, u32}
use ni_fat.State.{FatData, Core, State, Driver, ready}
use ni_fat.Threading.{null_lock}
use ni_fat.Vote.{Vote, start, step, votes, needs_repair}
use ni_fat.Vote.Majority.{step_match, votes-unanimous, count-replicate}
use ni_fat.Disk.Sectors.{at_rest}
use ni_fat.Errors.{adopt, no_code}
use ni_fat.Errors.Copies.{replaces_same, replaces_start, step_start, replicate-ne-nil}
use ni_fat.Layout.{JournalEntry, blank_journal}
use ni_fat.Layout.Roundtrip.{IsJournal}
use ni_fat.Journal.Copies.{Copy, read_journal_copy-at_rest}
use ni_fat.Journal.{read_journal_copy, read_journal_copies, choose_copy, read_journal}

module _ {S : Type 0} (d : Driver S) (fi : FatData) where
  -- the copies from number `i` on hold these entries, all with the checksum `k`
  abbrev pub CopiesHold : Core S → ℕ → ℕ → ℕ → List JournalEntry → Type 0
  CopiesHold c index k i [] = Unit
  CopiesHold c index k i (j ∷ js) =
      IsJournal j × (j.checksum ≡ k) × Copy d fi c index j i × CopiesHold c index k (i + 1) js

  module _ (c : Core S) (e m f a index k : ℕ) (fits : u32 (index * 68) + 68 ≤ c.sector_size) where
    -- once the candidate is the checksum, the copies only confirm it
    copies-confirm :
        (js : List JournalEntry) (i : ℕ) (v : Vote) (copy : Option ℕ)
        → CopiesHold c index k i js
        → v.value ≡ k
        → read_journal_copies d fi index (length js) i v copy (at_rest c e m f a)
          ≡ ((votes v (replicate (length js) k), copy), at_rest c e m f a)
    unfolding read_journal_copies adopt votes
    copies-confirm [] i v copy held q = refl
    copies-confirm (j ∷ js) i v copy held q =
        let s : State S = at_rest c e m f a in
        let sum : JournalEntry × State S → (Vote × Option ℕ) × State S = λ r.
          read_journal_copies d fi index (length js) (i + 1) (step v r.0.checksum)
            (adopt (some r.0.checksum) i v copy) r.1 in
        ap sum (read_journal_copy-at_rest d fi e m f a index j held.0 c i blank_journal fits held.2)
        ∙ ap
            (λ (x : ℕ).
              read_journal_copies d fi index (length js) (i + 1) (step v x)
                (adopt (some x) i v copy) s)
            held.1
        ∙ rw (replaces_same v k q)
            (copies-confirm js (i + 1) (step v k) copy held.3 ((step_match v k (sym q)).0 ∙ q))

    copies-all :
        (j : JournalEntry) (js : List JournalEntry)
        → k ≢ no_code
        → CopiesHold c index k 0 (j ∷ js)
        → read_journal_copies d fi index
            (suc (length js))
            0
            (start no_code)
            none
            (at_rest c e m f a)
          ≡ ((votes (start no_code) (replicate (suc (length js)) k), some 0), at_rest c e m f a)
    unfolding read_journal_copies adopt votes
    copies-all j js ne held =
        let s : State S = at_rest c e m f a in
        let v : Vote = start no_code in
        let sum : JournalEntry × State S → (Vote × Option ℕ) × State S = λ r.
          read_journal_copies d fi index (length js) 1 (step v r.0.checksum)
            (adopt (some r.0.checksum) 0 v none) r.1 in
        ap sum (read_journal_copy-at_rest d fi e m f a index j held.0 c 0 blank_journal fits held.2)
        ∙ ap
            (λ (x : ℕ).
              read_journal_copies d fi index (length js) 1 (step v x) (adopt (some x) 0 v none) s)
            held.1
        ∙ rw (replaces_start k no_code ne)
            (copies-confirm js 1 (step v k) (some 0) held.3 (step_start k no_code ne))

    -- The entry of the first copy is what is read, where all checksums agree.
    pub read_journal-at_rest :
        (j : JournalEntry) (js : List JournalEntry) (old : JournalEntry)
        → k ≢ no_code
        → suc (length js) ≡ fi.journals_count
        → CopiesHold c index k 0 (j ∷ js)
        → read_journal d fi index old (at_rest c e m f a) ≡ ((true, j), at_rest c e m f a)
    unfolding read_journal
    read_journal-at_rest j js old ne len held =
        let n : ℕ = suc (length js) in
        let s : State S = at_rest c e m f a in
        let calm =
          (votes-unanimous no_code k (replicate n k) (replicate-ne-nil n k (omega arith))
            (omega (arith, count-replicate n k, length-replicate n k))).1 in
        ap
          (λ (x : ℕ).
            choose_copy d fi index old (read_journal_copies d fi index x 0 (start no_code) none s))
          (sym len)
        ∙ ap (choose_copy d fi index old) (copies-all j js ne held)
        ∙ chosen j (votes (start no_code) (replicate n k)) calm
            (read_journal_copy-at_rest d fi e m f a index j held.0 c 0 old fits held.2)
      where
        chosen :
            (j : JournalEntry) (v : Vote)
            → needs_repair v ≡ false
            → read_journal_copy d fi index 0 old (at_rest c e m f a) ≡ (j, at_rest c e m f a)
            → choose_copy d fi index old ((v, some 0), at_rest c e m f a)
              ≡ ((true, j), at_rest c e m f a)
        chosen j v calm got = unfold choose_copy in rw (calm, got) refl

-- `_read_journal` returns the entry of the first copy, and repairs nothing, whatever the other copies
-- hold, where the checksum fields of all copies are the same and not the one that the vote starts
-- from. The entry lies inside a sector, and no transfer is in progress.
pub read_journal-first :
    {S : Type 0} (d : Driver S) (fi : FatData) (c : Core S) (index k : ℕ) (j : JournalEntry)
    (js : List JournalEntry) (old : JournalEntry)
    → u32 (index * 68) + 68 ≤ c.sector_size
    → k ≢ no_code
    → suc (length js) ≡ fi.journals_count
    → CopiesHold d fi c index k 0 (j ∷ js)
    → read_journal d fi index old (ready c) ≡ ((true, j), ready c)
read_journal-first d fi c index k j js old fits ne len held =
    let N : ℕ = null_lock in read_journal-at_rest d fi c N N N N index k fits j js old ne len held
