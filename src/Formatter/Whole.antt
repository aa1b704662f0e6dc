-- ===== src/Formatter/Whole.antt =====
-- formatter/nifat32formatter.c: `_copy_file` stores a file along a chain of clusters.
use ni_fat.Base.{
  ℕ, ◌+◌, ◌-◌, ◌*◌, ◌<◌, ◌≤◌, ◌==◌, ◌≡◌, ◌≢◌, inl, inr, refl, sym, ◌∙◌, arith, ==_iff, Bool-cases,
  List, [], ◌∷◌, length, get_or, take, drop, set, length-set, length-take, length-drop, Option,
  none, some,
}
use ni_fat.Formatter.Files.{
  Posix, Volume, Copied, cluster_bytes, fat_entry_end, cluster_offset, link, copied_part,
  copy_parts, copy_file,
}
use ni_fat.Formatter.Copies.{IsFile}
use ni_fat.Formatter.Search.{get_or-set_self, get_or-set_ne, take_cluster-cases}
use ni_fat.Formatter.Chains.{
  Stores, WereFree, Follows, round_volume, first-Stores, rest-WereFree, file-kept,
  copy_parts-Follows,
}

module _ {S : Type 0} (f : Posix S) (start tc : ℕ) where
  -- What _copy_file leaves, unless it fails: the start of a chain that holds the file, over clusters
  -- that were free, with its size; all in front of the search is as it was.
  abbrev pub Filed : Volume S → List ℕ → Option Copied × Volume S → Type 0
  Filed v bytes (none, v') = Unit {0}
  Filed v bytes (some k, v') =
      (cs : List ℕ) × (k.start_cluster ≡ get_or cs 0 0)
      × (k.file_size ≡ length bytes)
      × Stores f start tc v'.table v'.file cs bytes
      × WereFree f start tc v.table v.last_alloc cs
      × ((e d : ℕ) → e < v.last_alloc → get_or v'.table e d ≡ get_or v.table e d)
      × ((o n : ℕ)
          → o + n ≤ start + (v.last_alloc - 2) * 4096
          → f.pread v'.file o n ≡ f.pread v.file o n)

  module _ (file : IsFile f) (small : start + tc * 4096 ≤ 0x100000000) where
    Filed-later :
        (v : Volume S) (c : ℕ) (bytes : List ℕ) (k : Copied) (r : Option Copied × Volume S)
        → 2 ≤ v.last_alloc
        → v.last_alloc ≤ c
        → c < tc
        → k.start_cluster ≡ c
        → k.file_size ≡ length (take cluster_bytes bytes)
        → get_or v.table c 1 ≡ 0
        → (f.pwrite v.file (cluster_offset start c) (take cluster_bytes bytes)).0
          ≡ length (take cluster_bytes bytes)
        → Follows f start tc c
            (round_volume f start tc file small v c bytes (set v.table c fat_entry_end))
            (drop cluster_bytes bytes)
            k
            r
        → Filed v bytes r
    Filed-later v c bytes k (none, v') low from to head part free ok h = tt
    Filed-later v c bytes k (some k', v') low from to head part free ok h =
        let (cs, same, size, next, rest, others, kept, apart) = h in
        let table1 = set v.table c fat_entry_end in
        let agree : (e d : ℕ) → e ≢ c → get_or table1 e d ≡ get_or v.table e d =
          λ e d not_c. get_or-set_ne v.table c e fat_entry_end d (λ q. not_c (sym q)) in
        (
          c ∷ cs,
          same ∙ head,
          size
              ∙ omega
                  (arith, part, length-take cluster_bytes bytes, length-drop cluster_bytes bytes),
          first-Stores f start tc file small v c bytes low from to table1 k k' v' ok h,
          (
            (from, free),
            rest-WereFree f start tc file small v c bytes low from to table1
                (λ e d over. agree e d (λ q. absurd (omega (arith, q, over)))) cs others,
          ),
          λ e d under.
              kept e d (omega (arith, under, from)) (λ q. absurd (omega (arith, q, under, from)))
              ∙ agree e d (λ q. absurd (omega (arith, q, under, from))),
          λ o n under.
              apart o n (omega (arith, under, from, low))
              ∙ file-kept f start tc file small v c bytes low from to o n under,
        )

    -- A file that _copy_file copies without an error lies along a chain of the table, in the order of its
    -- bytes, from the cluster that is returned, with its size; the chain is of clusters that were free,
    -- and neither the entries nor the clusters in front of the one where the search began change. The
    -- table has an entry for each cluster, their offsets have 32 bits, and the volume is a file that keeps
    -- what is written.
    pub copy_file-Filed :
        (bytes : List ℕ) (v : Volume S)
        → 2 ≤ v.last_alloc
        → length v.table ≡ tc
        → Filed v bytes (copy_file f start tc bytes v)
    unfolding copy_file copy_parts
    copy_file-Filed [] v low whole =
        ([], refl, refl, refl, tt, λ e d under. refl, λ o n under. refl)
    copy_file-Filed (b ∷ bs) v low whole = elim (take_cluster-cases tc v) [
      | inl full ↦ rw (full, copy_parts) tt
      | inr (c, from, to, free, found) ↦
          let bytes = b ∷ bs in
          let part = take cluster_bytes bytes in
          let none_yet : Copied = record {
            start_cluster = 0;
            prev_cluster = none;
            file_size = 0;
          } in
          let wrote = f.pwrite v.file (cluster_offset start c) part in
          let table1 = set v.table c fat_entry_end in
          let linked : link c none_yet table1 ≡ table1 = unfold link in refl in
          let k2 = copied_part c (length part) none_yet in
          let fits : length (drop cluster_bytes bytes) ≤ length bs =
            omega (arith, length-drop cluster_bytes bytes) in
          rw (found, copy_parts)
            (elim (Bool-cases (wrote.0 == length part)) [
              | inl ok ↦
                  rw (ok, copy_parts)
                    (rw linked (
                      Filed-later v c bytes k2 _ low from to (unfold copied_part in refl)
                        (unfold copied_part in omega arith) free
                        ((==_iff wrote.0 (length part)).0 ok)
                        (copy_parts-Follows f start tc file small (length bs) c
                          (drop cluster_bytes bytes) k2
                          (record { file = wrote.1; table = table1; last_alloc = c + 1 })
                          (unfold copied_part in refl) (omega arith) (omega (arith, low, from))
                          (length-set v.table c fat_entry_end ∙ whole) fits
                          (get_or-set_self v.table c fat_entry_end 0 (omega (arith, whole, to))))))
              | inr bad ↦ rw (bad, copy_parts) tt
            ])
    ]
