-- ===== src/Api/Chains/Links.antt =====
-- nifat32.c: what _add_cluster_to_chain did to the table when it answers a cluster.
use ni_fat.Base.{ℕ, List, ◌==◌, ◌≡◌, refl, ap, Bool, true, false, Bool-cases, ◌⊎◌, inl, inr, ==→ne}
use ni_fat.State.{FatData, State, Driver}
use ni_fat.Fat.{cluster_bad, cluster_end, write_fat}
use ni_fat.Cluster.{get_cluster_offset, alloc_cluster}
use ni_fat.Cluster.Claim.{IsClaimed, Claims, search_start, alloc_cluster-Claims}
use ni_fat.Api.Chains.{
  give_up, link_cluster, end_chain, append_cluster, new_cluster, add_cluster_to_chain,
}

module _ {S : Type 0} (d : Driver S) (fi : FatData) (hca : ℕ) where
  -- From the state `s` on, the cluster `r` was claimed; then its entry was written as the end of a
  -- chain, and then that of `hca` as a link to it, which gives the state `v`.
  abbrev pub IsLinked : ℕ → State S → ℕ → State S → Type 0
  IsLinked offt s r v =
      (cs : List ℕ) × (u : State S) × IsClaimed d fi offt cs s r u
      × ((write_fat d fi r cluster_end u).0 ≡ true)
      × (write_fat d fi hca r (write_fat d fi r cluster_end u).1 ≡ (true, v))

  abbrev pub Links : ℕ → State S → ℕ × State S → Type 0
  Links offt s q = (q.0 ≡ cluster_bad) ⊎ IsLinked offt s q.0 q.1

  link_cluster-Links :
      (offt r : ℕ) (cs : List ℕ) (t u : State S)
      → IsClaimed d fi offt cs t r u
      → (write_fat d fi r cluster_end u).0 ≡ true
      → (w : Bool × State S) → write_fat d fi hca r (write_fat d fi r cluster_end u).1 ≡ w
      → Links offt t (link_cluster d fi hca r w)
  unfolding link_cluster give_up
  link_cluster-Links offt r cs t u claimed ended (false, s) e = inl refl
  link_cluster-Links offt r cs t u claimed ended (true, s) e = inr (cs, u, claimed, ended, e)

  end_chain-Links :
      (offt r : ℕ) (cs : List ℕ) (t u : State S)
      → IsClaimed d fi offt cs t r u
      → (w : Bool × State S) → write_fat d fi r cluster_end u ≡ w
      → Links offt t (end_chain d fi hca r w)
  unfolding end_chain give_up
  end_chain-Links offt r cs t u claimed (false, s) e = inl refl
  end_chain-Links offt r cs t u claimed (true, s) e =
      let ended = ap (λ (w : Bool × State S). w.0) e in
      let after = ap (λ (w : Bool × State S). w.1) e in
      link_cluster-Links offt r cs t u claimed ended (write_fat d fi hca r s)
        (ap (write_fat d fi hca r) after)

  append_cluster-Links :
      (offt : ℕ) (t : State S) (q : ℕ × State S)
      → Claims d fi offt t q
      → Links offt t (append_cluster d fi hca q)
  unfolding append_cluster
  append_cluster-Links offt t (nca, s) claims = elim (Bool-cases (nca == cluster_bad)) [
    | inl bad ↦ rw (bad, append_cluster) (inl refl)
    | inr good ↦ elim claims [
      | inl e ↦ absurd (==→ne good e)
      | inr (cs, claimed) ↦
          rw (good, append_cluster)
            (end_chain-Links offt nca cs t s claimed (write_fat d fi nca cluster_end s) refl)
    ]
  ]

  -- A cluster that _add_cluster_to_chain answers, other than FAT_CLUSTER_BAD, is one that the call's
  -- own alloc_cluster claimed: from the state after fatmap_find_free on, some entries were read, none
  -- as free, then that of this cluster, as free, and it was marked as reserved. Then it became the end
  -- of a chain, and only then was linked behind `hca`, all three successfully, and nothing was done
  -- after that. This holds whatever the device does and whoever holds locks.
  pub add_cluster_to_chain-Links :
      (s : State S)
      → let (offt, s1) = get_cluster_offset fi s in
        Links offt (search_start d fi offt s1) (add_cluster_to_chain d fi hca s)
  unfolding add_cluster_to_chain new_cluster
  add_cluster_to_chain-Links s =
      let (offt, s1) = get_cluster_offset fi s in
      append_cluster-Links offt (search_start d fi offt s1) (alloc_cluster d fi offt s1)
        (alloc_cluster-Claims d fi offt s1)
