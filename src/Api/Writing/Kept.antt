-- ===== src/Api/Writing/Kept.antt =====
-- nifat32.c: what NIFAT32_write_buffer2content stores, NIFAT32_read_content2buffer returns.
use ni_fat.Base.{
  ℕ, zero, suc, ◌+◌, ◌*◌, ◌<◌, ◌≤◌, ◌==◌, ◌≡◌, refl, sym, ap, subst, ◌∙◌, arith, true, ◌⊎◌, inl,
  inr, List, length, Option, none, some,
}
use ni_fat.State.{FatData, Core, State, IsDevice, ready}
use ni_fat.Strings.{ℤ}
use ni_fat.Disk.{overwrite}
use ni_fat.Cluster.Data.{HasDataArea}
use ni_fat.Content.Access.{get_content_mode, get_content_data_ca}
use ni_fat.Api.Defs.{World, Host, is_read_mode, is_write_mode}
use ni_fat.Api.Defs.Lock.{resting, locked-resting}
use ni_fat.Api.Reading.{read_loop, read_content, read_content2buffer}
use ni_fat.Api.Writing.{
  Progress, write_on, extend_loop, write_chain, write_content, write_buffer2content,
}
use ni_fat.Api.Writing.Rounds.{at}
use ni_fat.Api.Writing.Stored.{Chained, Distinct, room_behind, Leaves, write_loop-Leaves}

-- a world whose file system is idle
abbrev pub idle_world : {S T : Type 0} → World S T → Core S → World S T
idle_world w c = record w { logged = record w.logged { state = ready c } }

module _ {S T : Type 0} (h : Host S T) (fi : FatData) (c : Core S) where
  -- what a write along a chain answers: 0 after an error, or all of the data, which can be read
  Answers : ℕ → ℕ → List ℕ → Option (ℕ × State S) → Type 0
  Answers ca offset bytes none = ⊥
  Answers ca offset bytes (some (n, s)) =
      (n ≡ 0)
      ⊎ ((n ≡ length bytes)
          × ((t : S) × (s ≡ ready (at h.driver fi c t))
              × ((buffer : List ℕ)
                  → read_loop h.driver fi h.fuel ca offset buffer (length bytes) 0
                      (ready (at h.driver fi c t))
                    ≡ some (
                      (some (length bytes), overwrite buffer bytes),
                      ready (at h.driver fi c t),
                    ))))

  extend_nothing :
      (fuel first : ℕ) (p : Progress) (s : State S)
      → 0 < fuel
      → p.size ≡ 0
      → extend_loop h.driver fi fuel first p s ≡ some (p.total, s)
  unfolding extend_loop
  extend_nothing zero first p s enough done = absurd (omega arith)
  extend_nothing (suc fuel) first p s enough done =
      let e : (p.size == 0) ≡ true = ground arith in rw (e, extend_loop) refl

  write_on-Answers :
      (ca : ℕ) (rest : List ℕ) (t : S) (offset : ℕ) (bytes : List ℕ)
      (o : Option (Option Progress × State S))
      → 0 < h.fuel
      → Leaves h.driver fi c h.fuel t ca rest offset bytes 0 o
      → Answers ca offset bytes (write_on h.driver fi h.fuel ca o)
  unfolding write_on Answers
  write_on-Answers ca rest t offset bytes none enough leaves = leaves
  write_on-Answers ca rest t offset bytes (some (none, s)) enough leaves = inl refl
  write_on-Answers ca rest t offset bytes (some (some p, s)) enough
        (t', e, done, sum, apart, back) =
      let none_before : 0 + length bytes ≡ length bytes = omega arith in
      rw (extend_nothing h.fuel ca p s enough done) (
        inr (
          sum ∙ none_before,
          (
            t',
            e,
            λ buffer.
                back buffer
                ∙ ap
                    (λ (k : ℕ).
                      some ((some k, overwrite buffer bytes), ready (at h.driver fi c t')))
                    none_before,
          ),
        ))

  module _ (ci : ℤ) (w : World S T) (offset : ℕ) (bytes : List ℕ) where
    -- the outcome of a write, and of a read after it
    abbrev pub Kept : Type 0
    Kept =
        (n : ℕ) × (w' : World S T) × (write_buffer2content h fi ci offset bytes (length bytes)
            (resting (idle_world w c))
          ≡ some (n, resting w'))
        × ((n ≡ 0)
            ⊎ ((n ≡ length bytes)
                × ((buffer : List ℕ)
                    → read_content2buffer h fi ci offset buffer (length bytes) (resting w')
                      ≡ some ((length bytes, overwrite buffer bytes), resting w'))))

  module _ (ci : ℤ) (w : World S T) (offset : ℕ) (bytes : List ℕ)
      (writable : is_write_mode (get_content_mode ci w.table) ≡ true)
      (readable : is_read_mode (get_content_mode ci w.table) ≡ true) where
    ca : ℕ
    ca = get_content_data_ca ci w.table

    read_content-back :
        (t : S) (buffer : List ℕ)
        → read_loop h.driver fi h.fuel ca offset buffer
            (length bytes)
            0
            (ready (at h.driver fi c t))
          ≡ some ((some (length bytes), overwrite buffer bytes), ready (at h.driver fi c t))
        → read_content h fi ci offset buffer (length bytes) (idle_world w (at h.driver fi c t))
          ≡ some ((length bytes, overwrite buffer bytes), idle_world w (at h.driver fi c t))
    unfolding read_content ca
    read_content-back t buffer e = rw (readable, e, read_content) refl

    kept_outcome :
        (o : Option (ℕ × State S))
        → write_chain h.driver fi h.fuel ca offset bytes (length bytes) (ready c) ≡ o
        → Answers ca offset bytes o
        → Kept ci w offset bytes
    unfolding Answers
    kept_outcome none e answers = absurd answers
    kept_outcome (some (n, s)) e answers =
        let w' : World S T = record w { logged = record w.logged { state = s } } in
        let run : write_content h fi ci offset bytes (length bytes) (idle_world w c)
            ≡ some (n, w') =
          unfold write_content ca in rw (writable, e, write_content) refl in
        (
          n,
          w',
          unfold write_buffer2content in
              locked-resting 0 (write_content h fi ci offset bytes (length bytes)) (idle_world w c)
                (n, w') run,
          elim answers [
            | inl zero_answer ↦ inl zero_answer
            | inr (all, (t, same, back)) ↦ inr (
              all,
              λ buffer.
                  subst
                    (λ (q : State S).
                      read_content2buffer h fi ci offset buffer (length bytes)
                        (resting (record w { logged = record w.logged { state = q } }))
                      ≡ some (
                        (length bytes, overwrite buffer bytes),
                        resting (record w { logged = record w.logged { state = q } }),
                      ))
                    (sym same)
                    (unfold read_content2buffer in
                      locked-resting (0, buffer) (read_content h fi ci offset buffer (length bytes))
                        (idle_world w (at h.driver fi c t))
                        ((length bytes, overwrite buffer bytes), idle_world w (at h.driver fi c t))
                        (read_content-back t buffer (back buffer))),
            )
          ],
        )

    -- What NIFAT32_write_buffer2content stores along the chain of a content, NIFAT32_read_content2buffer
    -- returns: the write answers 0, or the size of the data, and after that a read from the same offset
    -- answers that size and fills the buffer with the data. The content is open for both, its clusters
    -- lie in the data area, no cluster stands twice in its chain, the cache knows the chain and it has
    -- room for the data behind the offset; a cluster is as large as its sectors, each loop has a round for
    -- every cluster, the device keeps what is written, and the thread runs alone.
    pub read_content2buffer-write_buffer2content :
        (rest : List ℕ)
        → IsDevice h.driver c.sector_size
        → HasDataArea fi
        → fi.cluster_size ≡ fi.sectors_per_cluster * c.sector_size
        → length rest < h.fuel
        → Chained fi c.fat (get_content_data_ca ci w.table) rest
        → Distinct (get_content_data_ca ci w.table) rest
        → offset + length bytes ≤ fi.cluster_size + room_behind fi rest
        → Kept ci w offset bytes
    unfolding ca write_chain
    read_content2buffer-write_buffer2content rest dev area whole enough chain once room =
        kept_outcome _ refl (
          write_on-Answers ca rest c.store offset bytes _ (omega arith) (
            write_loop-Leaves h.driver fi c dev area whole rest h.fuel c.store ca offset bytes 0
              enough chain once room))
