-- ===== src/Fat/Stored.antt =====
-- src/fat.c: what `read_fat` returns, from the copies and after `write_fat`, for a thread that runs
-- alone.
use ni_fat.Base.{
  ◌⊎◌, ℕ, zero, suc, ◌+◌, ◌*◌, ◌<◌, ◌≤◌, ◌==◌, ◌≡◌, refl, sym, ap, ◌∙◌, arith, Bool, true, false,
}
use ni_fat.Base.{
  if◌then◌else◌, List, length, replicate, length-replicate, Option, none, some, Bool-cases, inl,
  inr,
}
use mathlib.Core.Bool.{true≢false}
use ni_fat.Fatmap.Marks.{get_or-set_self}
use ni_fat.Threading.{null_lock, require_write, attempts, try_write}
use ni_fat.State.{FatData, Core, State, Driver, IsDevice, ready}
use ni_fat.Vote.{Vote, start, votes}
use ni_fat.Vote.Majority.{count, votes-majority, count-replicate}
use ni_fat.Hamming.Buffer.{le32, packed}
use ni_fat.Hamming.Buffer.Roundtrip.{length-packed-le32}
use ni_fat.Disk.Sectors.{at_rest}
use ni_fat.Disk.Copies.{put_copies-Holds}
use ni_fat.Fat.Alone.{held_lock, updated, drop_fat_lock-at_rest, record_value}
use ni_fat.Fat.Copies.{
  entry_off, Copy, put, CopiesHold, read_fat_copies-at_rest, write_fat_copies-at_rest,
}
use ni_fat.Fat.{
  entry_sector, is_outside, known, cached, cluster_bad, take_fat_lock, release_fat, adopt_value,
  write_fat_locked, write_fat, write_fat_copies, read_fat_copies, read_fat,
}

module _ {S : Type 0} (d : Driver S) (fi : FatData) (c : Core S) (ca : ℕ)
    (inside : is_outside fi ca ≡ false) (fits : entry_off d fi ca + 8 ≤ c.sector_size) where
  abbrev N : ℕ
  N = null_lock

  -- `read_fat` where the cache does not have the value
  pub read_fat-uncached :
      (xs : List ℕ)
      → known ca c.fat ≡ none
      → length xs ≡ fi.fat_count
      → CopiesHold d fi c ca 0 xs
      → read_fat d fi ca (ready c)
        ≡ release_fat d fi
            (adopt_value d fi ca (votes (start cluster_bad) xs, at_rest c N N held_lock N))
  unfolding read_fat take_fat_lock require_write attempts try_write
  read_fat-uncached xs unknown len held =
      rw (inside, unknown)
        (ap (λ (r : Vote × State S). release_fat d fi (adopt_value d fi ca r))
          (ap
              (λ (n : ℕ).
                read_fat_copies d fi ca n 0 (start cluster_bad) (at_rest c N N held_lock N))
              (sym len)
            ∙ read_fat_copies-at_rest d fi c N N held_lock N ca fits xs 0 (start cluster_bad) held))

  read_fat-vote :
      (xs : List ℕ)
      → known ca c.fat ≡ none
      → length xs ≡ fi.fat_count
      → CopiesHold d fi c ca 0 xs
      → (read_fat d fi ca (ready c)).0 ≡ (votes (start cluster_bad) xs).value
  read_fat-vote xs unknown len held =
      ap (λ (r : ℕ × State S). r.0) (read_fat-uncached xs unknown len held)
      ∙ (unfold release_fat adopt_value in refl)

  read_fat-known :
      (value : ℕ) → known ca c.fat ≡ some value → (read_fat d fi ca (ready c)).0 ≡ value
  unfolding read_fat take_fat_lock require_write attempts try_write
  read_fat-known value hit = rw (inside, hit) refl

  -- where `write_fat` reports success, all copies were written
  pub write_fat-stored :
      (value : ℕ)
      → (write_fat d fi ca value (ready c)).0 ≡ true
      → let p = put d fi ca value fi.fat_count 0 c.store in
        (p.0 ≡ true)
        × (write_fat d fi ca value (ready c)
            ≡ (true, ready (record (updated ca value c) { store = p.1 })))
  write_fat-stored value ok =
      let run : write_fat d fi ca value (ready c)
          ≡ release_fat d fi (write_fat_locked d fi ca value (at_rest c N N held_lock N)) =
        unfold write_fat take_fat_lock require_write attempts try_write in rw inside refl in
      let locked : write_fat_locked d fi ca value (at_rest c N N held_lock N)
          ≡ write_fat_copies d fi ca value fi.fat_count 0 true
              (at_rest (updated ca value c) N N held_lock N) =
        unfold write_fat_locked in
        ap (write_fat_copies d fi ca value fi.fat_count 0 true)
          (record_value N held_lock N c ca value) in
      let released : (r : Bool × State S) → (release_fat d fi r).0 ≡ r.0 =
        λ r. unfold release_fat in refl in
      let ok' =
        sym (ap (λ (r : Bool × State S). r.0) locked)
        ∙ sym (released _)
        ∙ sym (ap (λ (r : Bool × State S). r.0) run)
        ∙ ok in
      let (all, made) =
        write_fat_copies-at_rest d fi (updated ca value c) N N held_lock N ca value fi.fat_count 0
          fits ok' in
      (
        all,
        run
            ∙ ap (release_fat d fi) (locked ∙ made)
            ∙ (unfold release_fat in
                rw
                  (drop_fat_lock-at_rest
                    (record (updated ca value c) {
                      store = (put d fi ca value fi.fat_count 0 c.store).1;
                    })
                    N N N)
                  refl),
      )

-- the cache has an entry for the cluster, where there is a cache
abbrev pub Covers : ℕ → Option (List ℕ) → Type 0
Covers ca none = Unit
Covers ca (some table) = ca < length table

known-cached :
    (ca value : ℕ) (o : Option (List ℕ))
    → Covers ca o
    → (known ca (cached ca value o) ≡ none) ⊎ (known ca (cached ca value o) ≡ some value)
unfolding known cached
known-cached ca value none h = inl refl
known-cached ca value (some table) h =
    rw (get_or-set_self table ca value cluster_bad h)
      (elim (value == cluster_bad)
        as (λ t.
          ((if t then none else some value) ≡ none)
          ⊎ ((if t then none else some value) ≡ some value)) [ true ↦ inl refl | false ↦ inr refl ])

-- Where the cache does not have the value, `read_fat` returns the value that more than half of the
-- copies hold. The cluster is one of the data area, its entry lies inside a sector, and no other
-- transfer is in progress.
pub read_fat-majority :
    {S : Type 0} (d : Driver S) (fi : FatData) (c : Core S) (ca x : ℕ) (xs : List ℕ)
    → is_outside fi ca ≡ false
    → entry_off d fi ca + 8 ≤ c.sector_size
    → known ca c.fat ≡ none
    → length xs ≡ fi.fat_count
    → CopiesHold d fi c ca 0 xs
    → length xs < 2 * count x xs
    → (read_fat d fi ca (ready c)).0 ≡ x
read_fat-majority d fi c ca x xs inside fits unknown len held more =
    read_fat-vote d fi c ca inside fits xs unknown len held ∙ votes-majority cluster_bad x xs more

module _ {S : Type 0} (d : Driver S) (fi : FatData) (c : Core S) (ca : ℕ) where
  CopiesHold-replicate :
      (x n i : ℕ)
      → x < 0x10000000
      → ((j : ℕ) → i ≤ j → j < i + n → Copy d fi c ca x j)
      → CopiesHold d fi c ca i (replicate n x)
  CopiesHold-replicate x zero i short held = tt
  CopiesHold-replicate x (suc n) i short held = (
    short,
    held i (omega arith) (omega arith),
    CopiesHold-replicate x n (i + 1) short (λ j p q. held j (omega arith) (omega arith)),
  )

pub write_fat-refused :
    {S : Type 0} (d : Driver S) (fi : FatData) (ca value : ℕ) (s : State S)
    → is_outside fi ca ≡ true
    → (write_fat d fi ca value s).0 ≡ false
unfolding write_fat
write_fat-refused d fi ca value s h = rw h refl

-- After a `write_fat` that reports success, `read_fat` of the same cluster returns the value, with
-- and without the cache. The value has 28 bits, there is a copy, the device keeps what is written,
-- the entry lies inside a sector and a cache has an entry for the cluster.
pub read-write_fat :
    {S : Type 0} (d : Driver S) (fi : FatData) (c : Core S) (ca value : ℕ)
    → IsDevice d c.sector_size
    → entry_off d fi ca + 8 ≤ c.sector_size
    → 0 < fi.fat_count
    → value < 0x10000000
    → Covers ca c.fat
    → let (written, s) = write_fat d fi ca value (ready c) in
      written ≡ true → (read_fat d fi ca s).0 ≡ value
read-write_fat {S} d fi c ca value dev fits copies short covers ok =
    elim (Bool-cases (is_outside fi ca)) [
      | inr inside ↦
          let (all, run) = write_fat-stored d fi c ca inside fits value ok in
          let p = put d fi ca value fi.fat_count 0 c.store in
          let c' : Core S = record (updated ca value c) { store = p.1 } in
          let held : (j : ℕ) → j < fi.fat_count → Copy d fi c' ca value j = λ j h.
            put_copies-Holds d (entry_off d fi ca) (packed (le32 value)) (entry_sector fi ca)
              c.sector_size dev (omega (arith, length-packed-le32 value)) fi.fat_count 0 c.store j
              all (omega arith) (omega arith) in
          ap (λ (r : Bool × State S). (read_fat d fi ca r.1).0) run
          ∙ elim (known-cached ca value c.fat covers) [
            | inr hit ↦ read_fat-known d fi c' ca inside fits value hit
            | inl unknown ↦
                read_fat-majority d fi c' ca value (replicate fi.fat_count value) inside fits
                  unknown (length-replicate fi.fat_count value)
                  (CopiesHold-replicate d fi c' ca value fi.fat_count 0 short
                    (λ j p q. held j (omega arith)))
                  (omega (
                    arith,
                    length-replicate fi.fat_count value,
                    count-replicate fi.fat_count value,
                  ))
          ]
      | inl outside ↦
          absurd (true≢false (sym ok ∙ write_fat-refused d fi ca value (ready c) outside))
    ]
