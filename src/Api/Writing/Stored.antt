-- ===== src/Api/Writing/Stored.antt =====
-- nifat32.c: data that is written along the chain of a content is read back along it, for a thread that
-- runs alone, with a cache that knows the chain.
use ni_fat.Base.{
  ℕ, zero, suc, ◌+◌, ◌-◌, ◌*◌, ◌<◌, ◌≤◌, ◌==◌, ◌||◌, ◌≡◌, ◌≢◌, refl, sym, ap, ap₂, subst, ◌∙◌,
  arith, Bool, true, false, Bool-cases, ==_iff, inl, inr, List, [], ◌∷◌, ◌++◌, length, take, drop,
  take-append-drop, length-drop, All, Option, none, some,
}
use ni_fat.State.{FatData, Core, State, Driver, IsDevice, ready}
use ni_fat.Disk.{overwrite}
use ni_fat.Disk.Transfer.{overwrite-append, length-chunk}
use ni_fat.Fat.{known, is_outside}
use ni_fat.Cluster.Data.{HasDataArea, IsDataCluster}
use ni_fat.Api.Defs.{is_over}
use ni_fat.Api.Reading.{Moved, read_step, read_loop}
use ni_fat.Api.Writing.{Progress, write_step, write_loop}
use ni_fat.Api.Writing.Loops.{progress, write_ends, write_goes, read_ends, read_goes, write_fails}
use ni_fat.Api.Writing.Rounds.{at, cluster_read, KeepsOthers, write_step-Round}

-- the clusters of a chain behind `ca`, as the cache has them
abbrev pub Chained : FatData → Option (List ℕ) → ℕ → List ℕ → Type 0
Chained fi table ca [] = IsDataCluster fi ca × ((v : ℕ) × (known ca table ≡ some v))
Chained fi table ca (cb ∷ rest) =
    IsDataCluster fi ca
    × (known ca table ≡ some cb)
    × (is_over cb ≡ false)
    × Chained fi table cb rest

-- no cluster stands twice in a chain
abbrev pub Distinct : ℕ → List ℕ → Type 0
Distinct ca [] = Unit
Distinct ca (cb ∷ rest) = All (λ x. x ≢ ca) (cb ∷ rest) × Distinct cb rest

-- the bytes of the clusters behind one
abbrev pub room_behind : FatData → List ℕ → ℕ
room_behind fi [] = 0
room_behind fi (cb ∷ rest) = fi.cluster_size + room_behind fi rest

take_all : (xs : List ℕ) → take (length xs) xs ≡ xs
take_all [] = refl
take_all (x ∷ xs) = ap (λ (r : List ℕ). x ∷ r) (take_all xs)

or_true : (b : Bool) → (b || true) ≡ true
or_true true = refl
or_true false = refl

module _ {S : Type 0} (d : Driver S) (fi : FatData) (c : Core S) where
  -- What a write along a chain leaves, unless a transfer fails: everything is written, what is not of
  -- the chain stays, and a read along the chain gives the data.
  abbrev pub Leaves :
      ℕ → S → ℕ → List ℕ → ℕ → List ℕ → ℕ → Option (Option Progress × State S) → Type 0
  Leaves fuel t ca rest offset bytes total none = ⊥
  Leaves fuel t ca rest offset bytes total (some (none, s)) = Unit {0}
  Leaves fuel t ca rest offset bytes total (some (some p, s)) =
      (t' : S) × (s ≡ ready (at d fi c t'))
      × (p.size ≡ 0)
      × (p.total ≡ total + length bytes)
      × KeepsOthers d fi c t t' (ca ∷ rest)
      × ((buffer : List ℕ)
          → read_loop d fi fuel ca offset buffer (length bytes) total (ready (at d fi c t'))
            ≡ some ((some (total + length bytes), overwrite buffer bytes), ready (at d fi c t')))

  module _ (dev : IsDevice d c.sector_size) (area : HasDataArea fi)
      (whole : fi.cluster_size ≡ fi.sectors_per_cluster * c.sector_size) where
    inside-data : (ca : ℕ) → IsDataCluster fi ca → is_outside fi ca ≡ false
    unfolding is_outside
    inside-data ca h = ground arith

    -- what a read of a cluster gives back of a round of a write
    abbrev pub Gives : S → ℕ → ℕ → List ℕ → Moved → Type 0
    Gives t1 ca offset bytes m =
        (t2 : S) (buffer : List ℕ)
        → ((o n : ℕ) (b : List ℕ)
            → cluster_read d fi c t2 ca o n b ≡ cluster_read d fi c t1 ca o n b)
        → (filled : List ℕ) × (read_step d fi ca offset buffer (length bytes) (ready (at d fi c t2))
            ≡ ((m, filled), ready (at d fi c t2)))
          × (take m.count filled ≡ take m.count bytes)
          × (drop m.count filled ≡ drop m.count buffer)

    -- a filled buffer, put together
    whole_buffer :
        (n : ℕ) (filled bytes buffer : List ℕ)
        → n ≤ length bytes
        → take n filled ≡ take n bytes
        → drop n filled ≡ drop n buffer
        → length bytes - n ≡ 0
        → filled ≡ overwrite buffer bytes
    whole_buffer n filled bytes buffer le front back done =
        let all : n ≡ length bytes = omega (arith, done) in
        sym (take-append-drop n filled)
        ∙ ap₂ ◌++◌ (front ∙ ap (λ (k : ℕ). take k bytes) all ∙ take_all bytes)
            (back ∙ ap (λ (k : ℕ). drop k buffer) all)

    -- the round in which the data ends
    last_round :
        (fuel : ℕ) (t : S) (ca next offset : ℕ) (rest bytes : List ℕ) (total : ℕ)
        → IsDataCluster fi ca
        → known ca c.fat ≡ some next
        → (m : Moved) (t1 : S)
        → write_step d fi ca offset bytes (length bytes) (ready (at d fi c t))
          ≡ (m, ready (at d fi c t1))
        → Gives t1 ca offset bytes m
        → m.count ≤ length bytes
        → KeepsOthers d fi c t t1 (ca ∷ [])
        → m.fine ≡ true
        → length bytes - m.count ≡ 0
        → Leaves
            (suc fuel)
            t
            ca
            rest
            offset
            bytes
            total
            (write_loop d fi (suc fuel) ca offset bytes (length bytes) total (ready (at d fi c t)))
    last_round fuel t ca next offset rest bytes total inside cached m t1 e gives le keeps fine
          done =
        let within = inside-data ca inside in
        let over : (is_over next || length bytes - m.count == 0) ≡ true =
          rw done (or_true (is_over next)) in
        let sum : total + m.count ≡ total + length bytes = omega (arith, done) in
        rw
          (write_ends d fi c fuel t1 ca next offset (length bytes) total m within cached fine bytes
            _ e over)
          (
            t1,
            refl,
            unfold progress in done,
            unfold progress in sum,
            λ ck o n b there apart. keeps ck o n b there (apart.0, tt),
            λ buffer.
                let (filled, f, front, back) = gives t1 buffer (λ o n b. refl) in
                read_ends d fi c fuel t1 ca next offset (length bytes) total m within cached fine
                  buffer filled _ f over
                ∙ ap₂ (λ (k : ℕ) (b : List ℕ). some ((some k, b), ready (at d fi c t1))) sum
                    (whole_buffer m.count filled bytes buffer le front back done),
          )

    -- a round that is followed by others
    module _ (fuel : ℕ) (t : S) (ca cb offset : ℕ) (rest bytes : List ℕ) (total : ℕ) (m : Moved)
        (t1 : S) (inside : IsDataCluster fi ca) (cached : known ca c.fat ≡ some cb)
        (other : All (λ x. x ≢ ca) (cb ∷ rest)) (gives : Gives t1 ca offset bytes m)
        (le : m.count ≤ length bytes) (keeps : KeepsOthers d fi c t t1 (ca ∷ []))
        (fine : m.fine ≡ true) (on : (is_over cb || length bytes - m.count == 0) ≡ false) where
      Leaves-later :
          (o : Option (Option Progress × State S))
          → Leaves fuel t1 cb rest m.offset (drop m.count bytes) (total + m.count) o
          → Leaves (suc fuel) t ca (cb ∷ rest) offset bytes total o
      Leaves-later none h = h
      Leaves-later (some (none, s)) h = tt
      Leaves-later (some (some p, s)) (t', e, size, sum, apart, back) =
          let left : length (drop m.count bytes) ≡ length bytes - m.count =
            length-drop m.count bytes in
          let all : total + m.count + length (drop m.count bytes) ≡ total + length bytes =
            omega (arith, left, le) in
          (
            t',
            e,
            size,
            sum ∙ all,
            λ ck o n b there not_in.
                apart ck o n b there not_in.1 ∙ keeps ck o n b there (not_in.0, tt),
            λ buffer.
                let (filled, f, front, behind) =
                  gives t' buffer (λ o n b. apart ca o n b inside other) in
                let part : List ℕ = take m.count bytes in
                let long : length part ≡ m.count = length-chunk m.count bytes le in
                let rest_buffer : List ℕ = drop m.count buffer in
                let inner : read_loop d fi fuel cb m.offset (drop m.count filled)
                      (length bytes - m.count) (total + m.count) (ready (at d fi c t'))
                    ≡ some (
                      (some (total + length bytes), overwrite rest_buffer (drop m.count bytes)),
                      ready (at d fi c t'),
                    ) =
                  ap₂
                    (λ (b : List ℕ) (k : ℕ).
                      read_loop d fi fuel cb m.offset b k (total + m.count) (ready (at d fi c t')))
                    behind (sym left)
                  ∙ back rest_buffer
                  ∙ ap
                      (λ (k : ℕ). some (
                        (some k, overwrite rest_buffer (drop m.count bytes)),
                        ready (at d fi c t'),
                      ))
                      all in
                read_goes d fi c fuel t' ca cb offset (length bytes) total m (inside-data ca inside)
                  cached fine buffer filled _
                  (some (total + length bytes), overwrite rest_buffer (drop m.count bytes))
                  (ready (at d fi c t')) f on inner
                ∙ ap (λ (b : List ℕ). some ((some (total + length bytes), b), ready (at d fi c t')))
                    (ap₂
                        (λ (x : List ℕ) (k : ℕ).
                          x ++ overwrite (drop k buffer) (drop m.count bytes))
                        front (sym long)
                      ∙ overwrite-append buffer part (drop m.count bytes)
                      ∙ ap (overwrite buffer) (take-append-drop m.count bytes)),
          )

    -- Data that NIFAT32_write_buffer2content writes along a chain, as far as its first loop goes: unless
    -- a transfer fails, all of it is written to the clusters that the content has, clusters that are
    -- not of the chain keep what they hold, and the loop of NIFAT32_read_content2buffer reads the data
    -- back from the same offset. The chain is known to the cache, its clusters lie in the data area, no
    -- cluster stands twice in it, and it has room for the data behind the offset; the device keeps what
    -- is written, and the thread runs alone.
    pub write_loop-Leaves :
        (rest : List ℕ) (fuel : ℕ) (t : S) (ca offset : ℕ) (bytes : List ℕ) (total : ℕ)
        → length rest < fuel
        → Chained fi c.fat ca rest
        → Distinct ca rest
        → offset + length bytes ≤ fi.cluster_size + room_behind fi rest
        → Leaves fuel t ca rest offset bytes total
            (write_loop d fi fuel ca offset bytes (length bytes) total (ready (at d fi c t)))
    write_loop-Leaves rest zero t ca offset bytes total enough chain once room =
        absurd (omega arith)
    write_loop-Leaves [] (suc fuel) t ca offset bytes total enough chain once room =
        let r = write_step d fi ca offset bytes (length bytes) (ready (at d fi c t)) in
        let round = write_step-Round d fi c dev area whole t ca offset bytes chain.0 in
        elim (Bool-cases r.0.fine) [
          | inr bad ↦ rw (write_fails d fi c fuel t ca offset bytes total bad) tt
          | inl fine ↦
              let (t1, e, le, space, keeps, gives) = round fine in
              last_round fuel t ca chain.1.0 offset [] bytes total chain.0 chain.1.1 r.0 t1
                (ap (λ (s : State S). (r.0, s)) e) gives le keeps fine (omega (arith, space 0 room))
        ]
    write_loop-Leaves (cb ∷ rest) (suc fuel) t ca offset bytes total enough chain once room =
        let r = write_step d fi ca offset bytes (length bytes) (ready (at d fi c t)) in
        let round = write_step-Round d fi c dev area whole t ca offset bytes chain.0 in
        elim (Bool-cases r.0.fine) [
          | inr bad ↦ rw (write_fails d fi c fuel t ca offset bytes total bad) tt
          | inl fine ↦
              let (t1, e, le, space, keeps, gives) = round fine in
              let step : r ≡ (r.0, ready (at d fi c t1)) = ap (λ (s : State S). (r.0, s)) e in
              elim (Bool-cases (length bytes - r.0.count == 0)) [
                | inl done ↦
                    last_round fuel t ca cb offset (cb ∷ rest) bytes total chain.0 chain.1 r.0 t1
                      step gives le keeps fine ((==_iff (length bytes - r.0.count) 0).0 done)
                | inr more ↦
                    let on : (is_over cb || length bytes - r.0.count == 0) ≡ false =
                      rw (chain.2, more) refl in
                    let left : length (drop r.0.count bytes) ≡ length bytes - r.0.count =
                      length-drop r.0.count bytes in
                    let later =
                      write_loop-Leaves rest fuel t1 cb r.0.offset (drop r.0.count bytes)
                        (total + r.0.count) (omega arith) chain.3 once.1
                        (omega (arith, left, space (room_behind fi (cb ∷ rest)) room)) in
                    rw
                      (write_goes d fi c fuel t1 ca cb offset (length bytes) total r.0
                        (inside-data ca chain.0) chain.1 fine bytes (ready (at d fi c t)) step on)
                      (Leaves-later fuel t ca cb offset rest bytes total r.0 t1 chain.0 chain.1
                        once.0 gives le keeps fine on _
                        (subst
                          (λ (k : ℕ).
                            Leaves fuel t1 cb rest r.0.offset (drop r.0.count bytes)
                              (total + r.0.count)
                              (write_loop d fi fuel cb r.0.offset (drop r.0.count bytes) k
                                (total + r.0.count) (ready (at d fi c t1))))
                          left later))
              ]
        ]
