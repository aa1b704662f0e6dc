-- ===== src/Api/Writing/Rounds.antt =====
-- nifat32.c: a round of a write and the round of a read that gives back what it wrote, for a thread that
-- runs alone.
use ni_fat.Base.{
  ℕ, ◌+◌, ◌-◌, ◌*◌, ◌≤◌, ltb, ◌≡◌, ◌≢◌, refl, sym, ap, ◌∙◌, arith, Bool, true, false, Bool-cases,
  inl, inr, List, [], ◌∷◌, length, take, drop, All, some,
}
use ni_fat.State.{FatData, Core, State, Driver, IsDevice, ready}
use ni_fat.Threading.{
  null_lock, require_write, release_write, attempts, try_write, try_release_write,
}
use ni_fat.Disk.{write_rounds, overwrite}
use ni_fat.Disk.Sectors.{readoff-at_rest, writeoff-at_rest}
use ni_fat.Disk.Transfer.{length-chunk}
use ni_fat.Fat.{known, is_outside, read_fat, take_fat_lock, drop_fat_lock}
use ni_fat.Cluster.{cluster_sector, readoff_cluster, writeoff_cluster}
use ni_fat.Cluster.Data.{
  HasDataArea, IsDataCluster, readoff_cluster-writeoff_cluster,
  readoff_cluster-writeoff_cluster_apart,
}
use ni_fat.Api.Reading.{Moved, portion, read_part, read_step}
use ni_fat.Api.Writing.Parts.{write_rounds-take, take_part, drop_part}
use ni_fat.Api.Writing.{write_part, write_step}

-- A value that the cache has is read without the device.
pub read_fat-known :
    {S : Type 0} (d : Driver S) (fi : FatData) (c : Core S) (ca v : ℕ)
    → is_outside fi ca ≡ false
    → known ca c.fat ≡ some v
    → read_fat d fi ca (ready c) ≡ (v, ready c)
unfolding read_fat take_fat_lock drop_fat_lock require_write release_write attempts try_write
    try_release_write
read_fat-known d fi c ca v inside e = rw (inside, e) refl

module _ (fi : FatData) (offset size : ℕ) where
  portion-fits :
      ltb fi.cluster_size offset ≡ false
      → (portion fi offset size ≤ size) × (offset + portion fi offset size ≤ fi.cluster_size)
  unfolding portion
  portion-fits here = ground arith

  portion-space :
      (space : ℕ)
      → ltb fi.cluster_size offset ≡ false
      → offset + size ≤ fi.cluster_size + space
      → 0 + (size - portion fi offset size) ≤ space
  unfolding portion
  portion-space space here h = ground arith

module _ {S : Type 0} (d : Driver S) (fi : FatData) (c : Core S) where
  -- the core with another store
  abbrev pub at : S → Core S
  at t = record c { store = t }

  -- what a read of a cluster gives
  abbrev pub cluster_read : S → ℕ → ℕ → ℕ → List ℕ → Bool × List ℕ
  cluster_read t ca o n buffer = (readoff_cluster d fi ca o buffer n (ready (at t))).0

  -- clusters that are not of the chain stay
  abbrev pub KeepsOthers : S → S → List ℕ → Type 0
  KeepsOthers t t' chain =
      (ck o n : ℕ) (buffer : List ℕ)
      → IsDataCluster fi ck
      → All (λ x. x ≢ ck) chain
      → cluster_read t' ck o n buffer ≡ cluster_read t ck o n buffer

  readoff_cluster-ready :
      (t : S) (ca o : ℕ) (buffer : List ℕ) (n : ℕ)
      → readoff_cluster d fi ca o buffer n (ready (at t))
        ≡ (cluster_read t ca o n buffer, ready (at t))
  unfolding readoff_cluster
  readoff_cluster-ready t ca o buffer n =
      let N : ℕ = null_lock in
      let run =
        readoff-at_rest d (at t) N N N N (cluster_sector fi ca) o buffer n fi.sectors_per_cluster in
      run ∙ ap (λ (r : (Bool × List ℕ) × State S). (r.0, ready (at t))) (sym run)

  -- the store after a transfer
  abbrev pub put_part : S → ℕ → ℕ → List ℕ → ℕ → Bool × S
  put_part t ca o bytes n =
      write_rounds d t c.sector_size fi.sectors_per_cluster (cluster_sector fi ca) o n bytes

  writeoff_cluster-ready :
      (t : S) (ca o : ℕ) (bytes : List ℕ) (n : ℕ)
      → writeoff_cluster d fi ca o bytes n (ready (at t))
        ≡ ((put_part t ca o bytes n).0, ready (at (put_part t ca o bytes n).1))
  unfolding writeoff_cluster
  writeoff_cluster-ready t ca o bytes n =
      let N : ℕ = null_lock in
      writeoff-at_rest d (at t) N N N N (cluster_sector fi ca) o bytes n fi.sectors_per_cluster

  module _ (dev : IsDevice d c.sector_size) (area : HasDataArea fi)
      (whole : fi.cluster_size ≡ fi.sectors_per_cluster * c.sector_size) where
    part-read :
        (t : S) (ca o n : ℕ) (bytes buffer : List ℕ)
        → IsDataCluster fi ca
        → n ≤ length bytes
        → o + n ≤ fi.cluster_size
        → (put_part t ca o bytes n).0 ≡ true
        → cluster_read (put_part t ca o bytes n).1 ca o n buffer
          ≡ (true, overwrite buffer (take n bytes))
    part-read t ca o n bytes buffer inside some_left fits ok =
        let part : List ℕ = take n bytes in
        let long : length part ≡ n = length-chunk n bytes some_left in
        let put : Bool × S = put_part t ca o bytes n in
        let run : writeoff_cluster d fi ca o part (length part) (ready (at t))
            ≡ (put.0, ready (at put.1)) =
          ap (λ (k : ℕ). writeoff_cluster d fi ca o part k (ready (at t))) long
          ∙ writeoff_cluster-ready t ca o part n
          ∙ ap (λ (w : Bool × S). (w.0, ready (at w.1)))
              (write_rounds-take d c.sector_size fi.sectors_per_cluster t (cluster_sector fi ca) o n
                bytes) in
        let back =
          readoff_cluster-writeoff_cluster d fi (at t) ca o part buffer dev area inside
            (omega (arith, long, whole)) (ap (λ (w : Bool × State S). w.0) run ∙ ok) in
        sym (ap (λ (k : ℕ). cluster_read put.1 ca o k buffer) long)
        ∙ sym (
            ap (λ (w : Bool × State S). (readoff_cluster d fi ca o buffer (length part) w.1).0) run)
        ∙ ap (λ (r : (Bool × List ℕ) × State S). r.0) back

    part-keeps :
        (t : S) (ca o n : ℕ) (bytes : List ℕ)
        → IsDataCluster fi ca
        → KeepsOthers t (put_part t ca o bytes n).1 (ca ∷ [])
    part-keeps t ca o n bytes inside ck o' n' buffer there apart =
        sym (
          ap (λ (w : Bool × State S). (readoff_cluster d fi ck o' buffer n' w.1).0)
            (writeoff_cluster-ready t ca o bytes n))
        ∙ readoff_cluster-writeoff_cluster_apart d fi (at t) ca ck o n o' n' bytes buffer dev area
            inside there apart.0

    -- a round of a write, with a round of a read that gives back what it wrote
    abbrev pub Round : S → ℕ → ℕ → List ℕ → Moved × State S → Type 0
    Round t ca offset bytes r =
        let m = r.0 in
        m.fine ≡ true
        → (t1 : S) × (r.1 ≡ ready (at t1))
          × (m.count ≤ length bytes)
          × ((space : ℕ)
              → offset + length bytes ≤ fi.cluster_size + space
              → m.offset + (length bytes - m.count) ≤ space)
          × KeepsOthers t t1 (ca ∷ [])
          × ((t2 : S) (buffer : List ℕ)
              → ((o n : ℕ) (b : List ℕ) → cluster_read t2 ca o n b ≡ cluster_read t1 ca o n b)
              → (filled : List ℕ) × (read_step d fi ca offset buffer (length bytes) (ready (at t2))
                  ≡ ((m, filled), ready (at t2)))
                × (take m.count filled ≡ take m.count bytes)
                × (drop m.count filled ≡ drop m.count buffer))

    transfer-Round :
        (t : S) (ca offset : ℕ) (bytes : List ℕ) (w : Bool)
        → IsDataCluster fi ca
        → ltb fi.cluster_size offset ≡ false
        → let n = portion fi offset (length bytes) in
          (put_part t ca offset bytes n).0 ≡ w
          → Round t ca offset bytes
              (write_part d fi n (w, ready (at (put_part t ca offset bytes n).1)))
    unfolding write_part read_part read_step
    transfer-Round t ca offset bytes false inside here e = λ fine. cc
    transfer-Round t ca offset bytes true inside here e = λ fine.
        let n : ℕ = portion fi offset (length bytes) in
        let bounds = portion-fits fi offset (length bytes) here in
        let part : List ℕ = take n bytes in
        let long : length part ≡ n = length-chunk n bytes bounds.0 in
        let t1 : S = (put_part t ca offset bytes n).1 in
        (
          t1,
          refl,
          bounds.0,
          λ space h. portion-space fi offset (length bytes) space here h,
          part-keeps t ca offset n bytes inside,
          λ t2 buffer same. (
            overwrite buffer part,
            rw (here, read_step)
                (ap (read_part d fi n) (
                  readoff_cluster-ready t2 ca offset buffer n
                  ∙ ap (λ (r : Bool × List ℕ). (r, ready (at t2)))
                      (same offset n buffer
                        ∙ part-read t ca offset n bytes buffer inside bounds.0 bounds.1 e))),
            take_part part buffer n long,
            drop_part part buffer n long,
          ),
        )

    pub write_step-Round :
        (t : S) (ca offset : ℕ) (bytes : List ℕ)
        → IsDataCluster fi ca
        → Round t ca offset bytes (write_step d fi ca offset bytes (length bytes) (ready (at t)))
    unfolding write_step read_step
    write_step-Round t ca offset bytes inside =
        let n : ℕ = portion fi offset (length bytes) in
        elim (Bool-cases (ltb fi.cluster_size offset)) [
          | inl past ↦
              rw (past, write_step)
                λ fine. (
                  t,
                  refl,
                  omega arith,
                  λ space h. ground (arith, h),
                  λ ck o n' buffer there apart. refl,
                  λ t2 buffer same. (buffer, rw (past, read_step) refl, refl, refl),
                )
          | inr here ↦
              rw (here, write_step)
                (rw (writeoff_cluster-ready t ca offset bytes n) (
                  transfer-Round t ca offset bytes (put_part t ca offset bytes n).0 inside here
                    refl))
        ]
