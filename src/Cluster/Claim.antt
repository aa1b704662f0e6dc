-- ===== src/Cluster/Claim.antt =====
-- src/cluster.c, `alloc_cluster`: which cluster it hands out, and how long it looks for one.
use ni_fat.Base.{
  ℕ, zero, suc, ◌+◌, ◌<◌, ◌≤◌, ◌==◌, leb, ◌≡◌, refl, sym, ap, ◌∙◌, arith, Bool, true, false, u32,
}
use ni_fat.Base.{List, [], ◌∷◌, ◌⊎◌, inl, inr, Bool-cases, ==→ne}
use ni_fat.Fatmap.{find_free}
use mathlib.Core.Bool.{true≢false}
use ni_fat.State.{FatData, State, Driver}
use ni_fat.Fat.{cluster_free, cluster_bad, cluster_reserved, read_fat, write_fat, is_outside}
use ni_fat.Fat.Stored.{write_fat-refused}
use ni_fat.Cluster.{
  curr_offset, move_offset, drop_allocater_lock, take_allocater_lock, is_skipped, finish_claim,
  claim, scan_clusters, try_found, alloc_cluster,
}

module _ {S : Type 0} (d : Driver S) (fi : FatData) where
  -- the state after the entries of the clusters `cs` were read in turn
  abbrev pub after_reads : List ℕ → State S → State S
  after_reads [] s = s
  after_reads (c ∷ cs) s = after_reads cs (read_fat d fi c s).1

  -- each of these reads reports a cluster that is not free
  abbrev pub NoneFree : List ℕ → State S → Type 0
  NoneFree [] s = Unit
  NoneFree (c ∷ cs) s =
      let (value, s') = read_fat d fi c s in (¬ (value ≡ cluster_free)) × NoneFree cs s'

  -- From the state `s` on, the entries of the clusters `cs` were read in turn, none of them as free,
  -- then that of `r`, as free; `r`, a cluster of the data area, was marked as reserved in the state
  -- after this read, and with the offset and the lock of the allocator this gives the state `u`.
  abbrev pub IsClaimed : ℕ → List ℕ → State S → ℕ → State S → Type 0
  IsClaimed offt cs s r u =
      let (value, t) = read_fat d fi r (after_reads cs s) in
      let (written, v) = write_fat d fi r cluster_reserved t in
      NoneFree cs s
      × (value ≡ cluster_free)
      × (written ≡ true)
      × (u ≡ drop_allocater_lock (move_offset offt (u32 (r + 1)) v))
      × (is_outside fi r ≡ false)

  abbrev pub Claims : ℕ → State S → ℕ × State S → Type 0
  Claims offt s q = (q.0 ≡ cluster_bad) ⊎ ((cs : List ℕ) × IsClaimed offt cs s q.0 q.1)

  -- the state in which `alloc_cluster` reads the first entry: it has asked for the lock and called
  -- `fatmap_find_free`
  abbrev pub search_start : ℕ → State S → State S
  search_start offt s =
      let s1 = (take_allocater_lock s).1 in (find_free (curr_offset offt s1) 1 fi s1).1

  -- one more read in front
  after_taken :
      (offt c : ℕ) (s : State S) (q : ℕ × State S)
      → ((read_fat d fi c s).0 == cluster_free) ≡ false
      → Claims offt (read_fat d fi c s).1 q
      → Claims offt s q
  after_taken offt c s q taken (inl bad) = inl bad
  after_taken offt c s q taken (inr (cs, (none_free, free, made, at_end, inside))) =
      inr (c ∷ cs, ((==→ne taken, none_free), free, made, at_end, inside))

  finish_claim-Claims :
      (offt r : ℕ) (s : State S) (w : Bool × State S)
      → (read_fat d fi r s).0 ≡ cluster_free
      → write_fat d fi r cluster_reserved (read_fat d fi r s).1 ≡ w
      → Claims offt s (finish_claim d fi offt r w)
  unfolding finish_claim
  finish_claim-Claims offt r s (false, v) free e = inl refl
  finish_claim-Claims offt r s (true, v) free e =
      let made = ap (λ (w : Bool × State S). w.0) e in
      let end = λ (w : Bool × State S). drop_allocater_lock (move_offset offt (u32 (r + 1)) w.1) in
      let inside : is_outside fi r ≡ false = elim (Bool-cases (is_outside fi r)) [
        | inr inside ↦ inside
        | inl outside ↦
            absurd (true≢false (sym made ∙ write_fat-refused d fi r cluster_reserved _ outside))
      ] in
      inr ([], (tt, free, made, sym (ap end e), inside))

  claim-Claims :
      (offt r : ℕ) (s : State S)
      → ((read_fat d fi r s).0 == cluster_free) ≡ true
      → Claims offt s (claim d fi offt r (read_fat d fi r s).1)
  unfolding claim
  claim-Claims offt r s free = finish_claim-Claims offt r s _ (ground arith) refl

  scan_clusters-Claims :
      (fuel offt cluster skip : ℕ) (s : State S)
      → Claims offt s (scan_clusters d fi fuel offt cluster skip s)
  unfolding scan_clusters
  scan_clusters-Claims zero offt cluster skip s = inl refl
  scan_clusters-Claims (suc fuel) offt cluster skip s =
      elim (Bool-cases (leb fi.total_clusters cluster)) [
        | inl past ↦ rw (past, scan_clusters) (inl refl)
        | inr inside ↦ elim (Bool-cases ((read_fat d fi cluster s).0 == cluster_free)) [
          | inl free ↦ rw (inside, free, scan_clusters) (claim-Claims offt cluster s free)
          | inr taken ↦ elim (Bool-cases (is_skipped (read_fat d fi cluster s).0)) [
            | inl skips ↦
                rw (inside, taken, skips, scan_clusters)
                  (after_taken offt cluster s _ taken
                    (scan_clusters-Claims fuel offt (u32 (cluster + skip + 1)) (skip + 1) _))
            | inr next ↦
                rw (inside, taken, next, scan_clusters)
                  (after_taken offt cluster s _ taken
                    (scan_clusters-Claims fuel offt (u32 (cluster + 1)) skip _))
          ]
        ]
      ]

  try_found-Claims :
      (offt from : ℕ) (q : ℕ × State S) → Claims offt q.1 (try_found d fi offt from q)
  unfolding try_found
  try_found-Claims offt from (found, s) = elim (Bool-cases (found == 0)) [
    | inl none_found ↦
        rw (none_found, try_found) (scan_clusters-Claims fi.total_clusters offt from 0 s)
    | inr some_found ↦ elim (Bool-cases ((read_fat d fi found s).0 == cluster_free)) [
      | inl free ↦ rw (some_found, free, try_found) (claim-Claims offt found s free)
      | inr taken ↦
          rw (some_found, taken, try_found)
            (after_taken offt found s _ taken
              (scan_clusters-Claims fi.total_clusters offt from 0 _))
    ]
  ]

  -- A cluster that `alloc_cluster` returns, other than FAT_CLUSTER_BAD, is one of the data area. From
  -- the state after `fatmap_find_free` on, `alloc_cluster` read the entries of some clusters, none of
  -- them free, then that of the cluster it returns, which `read_fat` reported as free; in the state
  -- after this read `write_fat` marked it as reserved, successfully, and after that only the offset
  -- and the lock of the allocator changed. This holds whatever the device does and whoever holds
  -- locks.
  pub alloc_cluster-Claims :
      (offt : ℕ) (s : State S) → Claims offt (search_start offt s) (alloc_cluster d fi offt s)
  unfolding alloc_cluster
  alloc_cluster-Claims offt s = elim (Bool-cases (take_allocater_lock s).0) [
    | inl held ↦ rw (held, alloc_cluster) (try_found-Claims offt _ _)
    | inr busy ↦ rw (busy, alloc_cluster) (inl refl)
  ]

  -- The rounds of the loop of `alloc_cluster` are at most the clusters behind the one it starts at:
  -- given as much fuel, or more, it ends with the same result. There are less than 2^31 clusters,
  -- so that no cluster number wraps.
  pub scan_clusters-enough :
      (fuel more offt cluster skip : ℕ) (s : State S)
      → fi.total_clusters < 0x80000000
      → skip ≤ cluster
      → fi.total_clusters ≤ fuel + cluster
      → fi.total_clusters ≤ more + cluster
      → scan_clusters d fi fuel offt cluster skip s ≡ scan_clusters d fi more offt cluster skip s
  unfolding scan_clusters
  scan_clusters-enough zero zero offt cluster skip s small b h k = refl
  scan_clusters-enough zero (suc more) offt cluster skip s small b h k =
      let past : leb fi.total_clusters cluster ≡ true = ground arith in rw (past, scan_clusters)
  scan_clusters-enough (suc fuel) zero offt cluster skip s small b h k =
      let past : leb fi.total_clusters cluster ≡ true = ground arith in rw (past, scan_clusters)
  scan_clusters-enough (suc fuel) (suc more) offt cluster skip s small b h k =
      elim (Bool-cases (leb fi.total_clusters cluster)) [
        | inl past ↦ rw (past, scan_clusters)
        | inr inside ↦
            let below : cluster < fi.total_clusters = ground arith in
            elim (Bool-cases ((read_fat d fi cluster s).0 == cluster_free)) [
              | inl free ↦ rw (inside, free, scan_clusters)
              | inr taken ↦ elim (Bool-cases (is_skipped (read_fat d fi cluster s).0)) [
                | inl skips ↦
                    rw (inside, taken, skips, scan_clusters)
                      (scan_clusters-enough fuel more offt (u32 (cluster + skip + 1)) (skip + 1) _
                        small (omega arith) (omega arith) (omega arith))
                | inr next ↦
                    rw (inside, taken, next, scan_clusters)
                      (scan_clusters-enough fuel more offt (u32 (cluster + 1)) skip _ small
                        (omega arith) (omega arith) (omega arith))
              ]
            ]
      ]
