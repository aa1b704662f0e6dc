-- ===== src/Cluster/Data.antt =====
-- src/cluster.c: the transfers of the data of clusters, for a thread that runs alone.
use native.Mathlib.Nat.{mul-le-mul_right}
use native.Mathlib.Decide.{dec_lt}
use ni_fat.Base.{
  ℕ, zero, suc, ◌+◌, ◌-◌, ◌*◌, ◌<◌, ◌≤◌, ◌==◌, ltb, ◌≡◌, ◌≢◌, refl, sym, ap, ◌∙◌, arith, Bool, true,
  false, u16, u32,
}
use ni_fat.Base.{◌⊎◌, inl, inr, Bool-cases, if◌then◌else◌, List, length, take, drop, ◌++◌}
use ni_fat.State.{FatData, IsDevice, Core, State, Driver, ready}
use ni_fat.Threading.{null_lock}
use ni_fat.Disk.{read_rounds, write_rounds, min_of, overwrite, readoff_sectors}
use ni_fat.Disk.Sectors.{readoff-at_rest, writeoff-at_rest, readoff-writeoff_sectors}
use ni_fat.Disk.Transfer.{write_rounds-apart}
use ni_fat.Cluster.{cluster_sector, readoff_cluster, writeoff_cluster}

-- The data area, with the clusters from `ext_root_cluster` on, has 32-bit sector addresses.
pub record HasDataArea (fi : FatData) : Type 0 where
  pub short : fi.sectors_per_cluster < 0x10000
  pub wide : fi.total_clusters < 0x100000000
  pub ends :
      (fi.total_clusters - fi.ext_root_cluster) * fi.sectors_per_cluster + fi.first_data_sector
      < 0x100000000

-- a cluster of the data area
abbrev pub IsDataCluster : FatData → ℕ → Type 0
IsDataCluster fi ca = (fi.ext_root_cluster ≤ ca) × (ca < fi.total_clusters)

module _ (fi : FatData) (area : HasDataArea fi) where
  -- the last sector of the cluster lies before the end
  cluster_end-lt :
      (ca : ℕ)
      → IsDataCluster fi ca
      → (ca - fi.ext_root_cluster) * fi.sectors_per_cluster
          + fi.sectors_per_cluster
          + fi.first_data_sector
        < 0x100000000
  cluster_end-lt ca h =
      let k : ℕ = ca - fi.ext_root_cluster in
      let below : suc k ≤ fi.total_clusters - fi.ext_root_cluster = omega arith in
      omega (arith, mul-le-mul_right fi.sectors_per_cluster below, area.ends)

  cluster_sector-linear :
      (ca : ℕ)
      → IsDataCluster fi ca
      → cluster_sector fi ca
        ≡ (ca - fi.ext_root_cluster) * fi.sectors_per_cluster + fi.first_data_sector
  unfolding cluster_sector
  cluster_sector-linear ca h =
      let index : u32 (ca + 0x100000000 - fi.ext_root_cluster) ≡ ca - fi.ext_root_cluster =
        omega (arith, area.wide) in
      let step : u16 fi.sectors_per_cluster ≡ fi.sectors_per_cluster = omega (arith, area.short) in
      rw (index, step) (omega (arith, cluster_end-lt ca h))

  -- the sectors of two clusters
  clusters_apart :
      (ca cb : ℕ)
      → IsDataCluster fi ca
      → IsDataCluster fi cb
      → ca < cb
      → cluster_sector fi ca + fi.sectors_per_cluster ≤ cluster_sector fi cb
  clusters_apart ca cb h k lt =
      let next : suc (ca - fi.ext_root_cluster) ≤ cb - fi.ext_root_cluster = omega arith in
      omega (
        arith,
        cluster_sector-linear ca h,
        cluster_sector-linear cb k,
        mul-le-mul_right fi.sectors_per_cluster next,
      )

  cluster-fits :
      (ca : ℕ) → IsDataCluster fi ca → cluster_sector fi ca + fi.sectors_per_cluster < 0x100000000
  cluster-fits ca h = omega (arith, cluster_sector-linear ca h, cluster_end-lt ca h)

min_of-fits : (room left : ℕ) → min_of room left ≤ room
min_of-fits room left = ground arith

-- stores that agree on a run of sectors give the same reads of it
read_rounds-same :
    {S : Type 0} (d : Driver S) (ss n : ℕ) (t t' : S) (sa off left : ℕ) (buffer : List ℕ)
    → sa + n < 0x100000000
    → ((sb o k : ℕ)
        → sa ≤ sb
        → sb < sa + n
        → o + k ≤ ss
        → d.read_sector t' sb o k ≡ d.read_sector t sb o k)
    → read_rounds d t' ss n sa off left buffer ≡ read_rounds d t ss n sa off left buffer
unfolding read_rounds
read_rounds-same d ss zero t t' sa off left buffer h same = refl
read_rounds-same d ss (suc n) t t' sa off left buffer h same = elim (Bool-cases (left == 0)) [
  | inl e ↦ rw e
  | inr e ↦ elim (Bool-cases (ltb ss off)) [
    | inl skip ↦
        rw (e, skip)
          (read_rounds-same d ss n t t' (u32 (sa + 1)) (off - ss) left buffer (omega arith)
            (λ sb o k p q. same sb o k (omega arith) (omega arith)))
    | inr here ↦
        let size : ℕ = min_of (ss - off) left in
        let first =
          same sa off size (omega arith) (omega arith)
            (ground (arith, min_of-fits (ss - off) left)) in
        let filled : List ℕ = overwrite buffer (d.read_sector t sa off size).1 in
        rw (e, here, first)
          (ap
            (λ (r : Bool × List ℕ).
              if (d.read_sector t sa off size).0 == 0
              then (false, filled)
              else (r.0, take size filled ++ r.1))
            (read_rounds-same d ss n t t' (u32 (sa + 1)) 0 (left - size) (drop size filled)
              (omega arith) (λ sb o k p q. same sb o k (omega arith) (omega arith))))
  ]
]

module _ {S : Type 0} (d : Driver S) (fi : FatData) (c : Core S) (ca : ℕ) where
  -- A successful `writeoff_cluster` is read back by `readoff_cluster`, for data that ends inside a
  -- cluster of the data area, on a device that keeps what is written.
  pub readoff_cluster-writeoff_cluster :
      (off : ℕ) (bytes buffer : List ℕ)
      → IsDevice d c.sector_size
      → HasDataArea fi
      → IsDataCluster fi ca
      → off + length bytes ≤ fi.sectors_per_cluster * c.sector_size
      → let (written, s) = writeoff_cluster d fi ca off bytes (length bytes) (ready c) in
        written ≡ true
        → readoff_cluster d fi ca off buffer (length bytes) s ≡ ((true, overwrite buffer bytes), s)
  unfolding writeoff_cluster readoff_cluster
  readoff_cluster-writeoff_cluster off bytes buffer dev area h fits ok =
      let N : ℕ = null_lock in
      readoff-writeoff_sectors d c N N N N (cluster_sector fi ca) off bytes buffer
        fi.sectors_per_cluster dev (cluster-fits fi area ca h) fits ok

  -- Whatever is written to a cluster of the data area, and whether or not that succeeds, reading any
  -- other cluster of it gives the same as before.
  pub readoff_cluster-writeoff_cluster_apart :
      (cb off size o n : ℕ) (bytes buffer : List ℕ)
      → IsDevice d c.sector_size
      → HasDataArea fi
      → IsDataCluster fi ca
      → IsDataCluster fi cb
      → ca ≢ cb
      → let s = (writeoff_cluster d fi ca off bytes size (ready c)).1 in
        (readoff_cluster d fi cb o buffer n s).0 ≡ (readoff_cluster d fi cb o buffer n (ready c)).0
  unfolding writeoff_cluster readoff_cluster
  readoff_cluster-writeoff_cluster_apart cb off size o n bytes buffer dev area h k ne =
      let N : ℕ = null_lock in
      let spc : ℕ = fi.sectors_per_cluster in
      let sa : ℕ = cluster_sector fi ca in
      let sb : ℕ = cluster_sector fi cb in
      let t : S = (write_rounds d c.store c.sector_size spc sa off size bytes).1 in
      let c' : Core S = record c { store = t } in
      let apart : (sb + spc ≤ sa) ⊎ (sa + spc ≤ sb) = elim (dec_lt ca cb) [
        | yes lt ↦ inr (clusters_apart fi area ca cb h k lt)
        | no ge ↦ inl (clusters_apart fi area cb ca k h (omega arith))
      ] in
      let same =
        read_rounds-same d c.sector_size spc c.store t sb o n buffer (cluster-fits fi area cb k)
          (λ sc p q l r m.
            write_rounds-apart d c.sector_size dev spc c.store sa off size bytes sc p q
              (cluster-fits fi area ca h) (omega arith) m) in
      ap (λ (w : Bool × State S). (readoff_sectors d sb o buffer n spc w.1).0)
        (writeoff-at_rest d c N N N N sa off bytes size spc)
      ∙ ap (λ (r : (Bool × List ℕ) × State S). r.0) (readoff-at_rest d c' N N N N sb o buffer n spc)
      ∙ same
      ∙ sym (
          ap (λ (r : (Bool × List ℕ) × State S). r.0)
            (readoff-at_rest d c N N N N sb o buffer n spc))
