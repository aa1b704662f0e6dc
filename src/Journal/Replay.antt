-- ===== src/Journal/Replay.antt =====
-- src/journal.c: an entry that is written and read again, and an entry that is replayed.
use ni_fat.Base.{
  ℕ, zero, suc, ◌+◌, ◌*◌, ◌<◌, ◌≤◌, ◌==◌, ◌≡◌, ◌≢◌, refl, sym, ap, ◌∙◌, arith, Bool, true, pick,
  ne→==,
}
use ni_fat.Base.{
  if◌then◌else◌, List, ◌∷◌, length, replicate, length-replicate, u32, Bool-cases, inl, inr,
}
use ni_fat.State.{FatData, Core, State, Driver, IsDevice, ready}
use ni_fat.Threading.{null_lock}
use ni_fat.Hamming.Buffer.{packed}
use ni_fat.Disk.{write_rounds}
use ni_fat.Disk.Sectors.{at_rest, writeoff-at_rest}
use ni_fat.Disk.Copies.{put_copies, put_copies-Holds}
use ni_fat.Errors.{no_code}
use ni_fat.Cluster.{writeoff_cluster, cluster_sector}
use ni_fat.Layout.{JournalEntry, journal_bytes}
use ni_fat.Layout.Roundtrip.{IsJournal, length-packed_journal}
use ni_fat.Journal.Copies.{TakesAll, sector, put, Copy, write_journal-at_rest}
use ni_fat.Journal.Stored.{CopiesHold, read_journal-at_rest}
use ni_fat.Journal.{no_op, write_journal, read_journal, replay, restore_entry}

module _ {S : Type 0} (d : Driver S) (fi : FatData) where
  put-total :
      (index : ℕ) (j : JournalEntry) (n i : ℕ) (t : S)
      → TakesAll d fi
      → (put d fi index j n i t).0 ≡ true
  unfolding put_copies
  put-total index j zero i t takes = refl
  put-total index j (suc n) i t takes =
      rw (ne→== (takes t (sector d fi i) (u32 (index * 68)) (packed (journal_bytes j))))
        (put-total index j n (i + 1) _ takes)

  CopiesHold-replicate :
      (c : Core S) (index : ℕ) (j : JournalEntry) (n i : ℕ)
      → IsJournal j
      → ((m : ℕ) → i ≤ m → m < i + n → Copy d fi c index j m)
      → CopiesHold d fi c index j.checksum i (replicate n j)
  CopiesHold-replicate c index j zero i proper held = tt
  CopiesHold-replicate c index j (suc n) i proper held = (
    proper,
    refl,
    held i (omega arith) (omega arith),
    CopiesHold-replicate c index j n (i + 1) proper (λ m p q. held m (omega arith) (omega arith)),
  )

  module _ (e m f a index : ℕ) (takes : TakesAll d fi) where
    -- an entry in all copies is read back, and nothing changes
    read-write-at_rest :
        (c : Core S) (j old : JournalEntry) (n : ℕ)
        → IsDevice d c.sector_size
        → u32 (index * 68) + 68 ≤ c.sector_size
        → IsJournal j
        → j.checksum ≢ no_code
        → suc n ≡ fi.journals_count
        → read_journal d fi index old (write_journal d fi index j (at_rest c e m f a))
          ≡ ((true, j), write_journal d fi index j (at_rest c e m f a))
    read-write-at_rest c j old n dev fits proper ne copies =
        let c' : Core S = record c { store = (put d fi index j fi.journals_count 0 c.store).1 } in
        let run = write_journal-at_rest d fi e m f a index j proper c takes fits in
        let held : (i : ℕ) → 0 ≤ i → i < 0 + suc n → Copy d fi c' index j i = λ i p q.
          put_copies-Holds d (u32 (index * 68)) (packed (journal_bytes j)) (sector d fi)
            c.sector_size dev (omega (arith, length-packed_journal j proper.inner.named))
            fi.journals_count 0 c.store i (put-total index j fi.journals_count 0 c.store takes)
            (omega arith) (omega arith) in
        rw run (
          read_journal-at_rest d fi c' e m f a index j.checksum fits j (replicate n j) old ne
            (omega (arith, length-replicate n j))
            (CopiesHold-replicate c' index j (suc n) 0 proper held))

    -- a replay changes nothing but the device
    replay-at_rest :
        (c : Core S) (residue : ℕ) (j : JournalEntry)
        → (t : S) × (replay d fi residue j (at_rest c e m f a)
            ≡ at_rest (record c { store = t }) e m f a)
    unfolding replay
    replay-at_rest c residue j =
        let IsStored : State S → Type 0 =
          λ s. (t : S) × (s ≡ at_rest (record c { store = t }) e m f a) in
        let stores : (off : ℕ) (bytes : List ℕ)
            → IsStored (writeoff_cluster d fi j.ca off bytes 64 (at_rest c e m f a)).1 =
          λ off bytes. (
            (write_rounds d c.store c.sector_size fi.sectors_per_cluster (cluster_sector fi j.ca)
                off 64 bytes).1,
            unfold writeoff_cluster in
                ap (λ (r : Bool × State S). r.1)
                  (writeoff-at_rest d c e m f a (cluster_sector fi j.ca) off bytes 64
                    fi.sectors_per_cluster),
          ) in
        pick IsStored (j.op == 3) _ _ (stores _ _) (
          pick IsStored (j.op == 1) _ _ (stores _ _)
            (pick IsStored (j.op == 2) _ _ (stores _ _) (c.store, refl)))

-- `_read_journal` returns the entry that `_write_journal` stored at the same index, and changes
-- nothing. The device takes and keeps every write, there is at least one copy, the 68 bytes at the
-- index lie inside a sector, the entry's fields fit their types, and its checksum is not -1, the one
-- that the vote starts from.
pub read_journal-write_journal :
    {S : Type 0} (d : Driver S) (fi : FatData) (c : Core S) (index n : ℕ) (j old : JournalEntry)
    → IsDevice d c.sector_size
    → TakesAll d fi
    → u32 (index * 68) + 68 ≤ c.sector_size
    → IsJournal j
    → j.checksum ≢ no_code
    → suc n ≡ fi.journals_count
    → let s = write_journal d fi index j (ready c) in read_journal d fi index old s ≡ ((true, j), s)
read_journal-write_journal d fi c index n j old dev takes fits proper ne copies =
    let N : ℕ = null_lock in
    read-write-at_rest d fi N N N N index takes c j old n dev fits proper ne copies

module _ {S : Type 0} (d : Driver S) (fi : FatData) where
  -- one round of the restore, where the entry is found
  restore-found :
      (residue index : ℕ) (old j : JournalEntry) (s : State S)
      → read_journal d fi index old s ≡ ((true, j), s)
      → restore_entry d fi residue old index s ≡ (
          if j.op == no_op
          then s
          else write_journal d fi index (record j { op = no_op }) (replay d fi residue j s))
  unfolding restore_entry
  restore-found residue index old j s got =
      ap
        (λ (r : (Bool × JournalEntry) × State S).
          if r.0.1.op == no_op
          then r.1
          else write_journal d fi index (record r.0.1 { op = no_op })
              (replay d fi residue r.0.1 r.1))
        got

-- Once a round of `restore_from_journal` at an index has completed, a second round at that index
-- changes nothing, so that it replays nothing again. The device takes and keeps every write, there is
-- at least one copy, all copies hold entries with one checksum, which is not -1, the one that the vote
-- starts from, and the 68 bytes at the index lie inside a sector.
pub restore_entry_twice :
    {S : Type 0} (d : Driver S) (fi : FatData) (c : Core S) (index k : ℕ) (j : JournalEntry)
    (js : List JournalEntry) (residue residue' : ℕ) (old old' : JournalEntry)
    → IsDevice d c.sector_size
    → TakesAll d fi
    → u32 (index * 68) + 68 ≤ c.sector_size
    → k ≢ no_code
    → suc (length js) ≡ fi.journals_count
    → CopiesHold d fi c index k 0 (j ∷ js)
    → let s = restore_entry d fi residue old index (ready c) in
      restore_entry d fi residue' old' index s ≡ s
restore_entry_twice {S} d fi c index k j js residue residue' old old' dev takes fits ne len held =
    let N : ℕ = null_lock in
    let s : State S = ready c in
    let found : (o : JournalEntry) → read_journal d fi index o s ≡ ((true, j), s) =
      λ o. read_journal-at_rest d fi c N N N N index k fits j js o ne len held in
    let first = restore-found d fi residue index old j s (found old) in
    elim (Bool-cases (j.op == no_op)) [
      | inl none_left ↦
          let same : restore_entry d fi residue old index s ≡ s = first ∙ rw none_left refl in
          rw same (restore-found d fi residue' index old' j s (found old') ∙ rw none_left refl)
      | inr pending ↦
          let p : IsJournal j = held.0 in
          let done : JournalEntry = record j { op = no_op } in
          let proper : IsJournal done = record {
            op_byte = omega arith;
            ca_word = p.ca_word;
            offset_byte = p.offset_byte;
            inner = p.inner;
            checksum_word = p.checksum_word;
          } in
          let (t, replayed) = replay-at_rest d fi N N N N index takes c residue j in
          let c' : Core S = record c { store = t } in
          let s' : State S = write_journal d fi index done (ready c') in
          let again =
            read-write-at_rest d fi N N N N index takes c' done old' (length js) dev fits proper
              (λ q. ne (sym held.1 ∙ q)) len in
          let moved : restore_entry d fi residue old index s ≡ s' =
            first ∙ rw pending (ap (write_journal d fi index done) replayed) in
          rw moved (restore-found d fi residue' index old' done s' again)
    ]
