-- ===== src/Formatter/Chains.antt =====
-- formatter/nifat32formatter.c: the rounds of `_copy_file` behind its first.
use ni_fat.Base.{
  ℕ, zero, suc, ◌+◌, ◌-◌, ◌*◌, ◌<◌, ◌≤◌, ◌==◌, ◌≡◌, ◌≢◌, inl, inr, refl, sym, ◌∙◌, arith, ==_iff,
  Bool-cases, List, [], ◌∷◌, length, get_or, take, drop, set, All, length-set, length-take,
  length-drop, Option, none, some,
}
use ni_fat.Formatter.Files.{
  Posix, Volume, Copied, cluster_bytes, fat_entry_end, cluster_offset, link, copied_part,
  copy_parts,
}
use ni_fat.Formatter.Copies.{IsFile}
use ni_fat.Formatter.Search.{get_or-set_self, get_or-set_ne, take_cluster-cases}

-- the entry of a cluster with others behind it
abbrev pub next_of : List ℕ → ℕ
next_of [] = fat_entry_end
next_of (c ∷ cs) = c

module _ {S : Type 0} (f : Posix S) (start tc : ℕ) where
  -- the clusters hold the bytes of a file, and the table links them
  abbrev pub Stores : List ℕ → S → List ℕ → List ℕ → Type 0
  Stores table t [] bytes = bytes ≡ []
  Stores table t (c ∷ cs) bytes =
      (get_or table c 0 ≡ next_of cs)
      × (f.pread t (cluster_offset start c) (length (take cluster_bytes bytes))
          ≡ take cluster_bytes bytes)
      × Stores table t cs (drop cluster_bytes bytes)

  -- clusters that were free in a table, from `from` on
  abbrev pub WereFree : List ℕ → ℕ → List ℕ → Type 0
  WereFree table from cs = All (λ c. (from ≤ c) × (get_or table c 1 ≡ 0)) cs

  -- what the rounds behind cluster `p` leave, unless they fail: the rest of the file along a chain that
  -- goes on from `p`, and the rest of the table and the file as it was
  abbrev pub Follows : ℕ → Volume S → List ℕ → Copied → Option Copied × Volume S → Type 0
  Follows p v bytes k (none, v') = Unit {0}
  Follows p v bytes k (some k', v') =
      (cs : List ℕ) × (k'.start_cluster ≡ k.start_cluster)
      × (k'.file_size ≡ k.file_size + length bytes)
      × (get_or v'.table p 0 ≡ next_of cs)
      × Stores v'.table v'.file cs bytes
      × WereFree v.table v.last_alloc cs
      × ((e d : ℕ) → e < v.last_alloc → e ≢ p → get_or v'.table e d ≡ get_or v.table e d)
      × ((o n : ℕ)
          → o + n ≤ start + (v.last_alloc - 2) * 4096
          → f.pread v'.file o n ≡ f.pread v.file o n)

  module _ (file : IsFile f) (small : start + tc * 4096 ≤ 0x100000000) where
    offset-exact : (c : ℕ) → 2 ≤ c → c < tc → cluster_offset start c ≡ start + (c - 2) * 4096
    unfolding cluster_offset
    offset-exact c from to = omega arith

    -- the file after a round
    abbrev pub round_file : Volume S → ℕ → List ℕ → S
    round_file v c bytes = (f.pwrite v.file (cluster_offset start c) (take cluster_bytes bytes)).1

    -- the volume after it, with a table
    abbrev pub round_volume : Volume S → ℕ → List ℕ → List ℕ → Volume S
    round_volume v c bytes table = record {
      file = round_file v c bytes;
      table = table;
      last_alloc = c + 1;
    }

    module _ (v : Volume S) (c : ℕ) (bytes : List ℕ) (low : 2 ≤ v.last_alloc)
        (from : v.last_alloc ≤ c) (to : c < tc) where
      pub first-Stores :
          (table : List ℕ) (k : Copied) (k' : Copied) (v' : Volume S)
          → (f.pwrite v.file (cluster_offset start c) (take cluster_bytes bytes)).0
            ≡ length (take cluster_bytes bytes)
          → (h : Follows c
              (round_volume v c bytes table)
              (drop cluster_bytes bytes)
              k
              (some k', v'))
          → Stores v'.table v'.file (c ∷ h.0) bytes
      first-Stores table k k' v' ok (cs, same, size, next, rest, free, kept, apart) =
          let part = take cluster_bytes bytes in
          let at = offset-exact c (omega (arith, low, from)) to in
          (
            next,
            apart (cluster_offset start c) (length part)
                  (omega (arith, at, length-take cluster_bytes bytes, low, from))
                ∙ file.written v.file (cluster_offset start c) part ok,
            rest,
          )

      pub rest-WereFree :
          (table : List ℕ)
          → ((e d : ℕ) → c < e → get_or table e d ≡ get_or v.table e d)
          → (cs : List ℕ) → WereFree table (c + 1) cs
          → WereFree v.table v.last_alloc cs
      rest-WereFree table same [] free = tt
      rest-WereFree table same (x ∷ xs) ((above, is_free), more) = (
        (omega (arith, above, from), sym (same x 1 (omega (arith, above))) ∙ is_free),
        rest-WereFree table same xs more,
      )

      pub file-kept :
          (o n : ℕ)
          → o + n ≤ start + (v.last_alloc - 2) * 4096
          → f.pread (round_file v c bytes) o n ≡ f.pread v.file o n
      file-kept o n under =
          file.apart v.file (cluster_offset start c) (take cluster_bytes bytes) o n
            (inl (omega (arith, offset-exact c (omega (arith, low, from)) to, under, from, low)))

      -- a round behind cluster `p`, and the others
      Follows-later :
          (p : ℕ) (k : Copied) (r : Option Copied × Volume S)
          → k.prev_cluster ≡ some p
          → p < v.last_alloc
          → length v.table ≡ tc
          → get_or v.table c 1 ≡ 0
          → (f.pwrite v.file (cluster_offset start c) (take cluster_bytes bytes)).0
            ≡ length (take cluster_bytes bytes)
          → Follows c
              (round_volume v c bytes (set (set v.table c fat_entry_end) p c))
              (drop cluster_bytes bytes)
              (copied_part c (length (take cluster_bytes bytes)) k)
              r
          → Follows p v bytes k r
      unfolding copied_part
      Follows-later p k (none, v') prev before whole free ok h = tt
      Follows-later p k (some k', v') prev before whole free ok h =
          let (cs, same, size, next, rest, others, kept, apart) = h in
          let table2 = set (set v.table c fat_entry_end) p c in
          let first : k'.start_cluster ≡ k.start_cluster = same ∙ rw prev refl in
          let agree : (e d : ℕ) → e ≢ c → e ≢ p → get_or table2 e d ≡ get_or v.table e d =
            λ e d not_c not_p.
              get_or-set_ne (set v.table c fat_entry_end) p e c d (λ q. not_p (sym q))
              ∙ get_or-set_ne v.table c e fat_entry_end d (λ q. not_c (sym q)) in
          let linked : get_or table2 p 0 ≡ c =
            get_or-set_self (set v.table c fat_entry_end) p c 0
              (omega (arith, length-set v.table c fat_entry_end, whole, before, from, to)) in
          (
            c ∷ cs,
            first,
            size ∙ omega (arith, length-take cluster_bytes bytes, length-drop cluster_bytes bytes),
            kept p 0 (omega (arith, before, from)) (λ q. absurd (omega (arith, q, before, from)))
                ∙ linked,
            first-Stores table2 (copied_part c (length (take cluster_bytes bytes)) k) k' v' ok h,
            (
              (from, free),
              rest-WereFree table2
                  (λ e d over.
                    agree e d (λ q. absurd (omega (arith, q, over)))
                      (λ q. absurd (omega (arith, q, over, before, from))))
                  cs others,
            ),
            λ e d under not_p.
                kept e d (omega (arith, under, from)) (λ q. absurd (omega (arith, q, under, from)))
                ∙ agree e d (λ q. absurd (omega (arith, q, under, from))) not_p,
            λ o n under. apart o n (omega (arith, under, from, low)) ∙ file-kept o n under,
          )

    pub copy_parts-Follows :
        (fuel p : ℕ) (bytes : List ℕ) (k : Copied) (v : Volume S)
        → k.prev_cluster ≡ some p
        → p < v.last_alloc
        → 2 ≤ v.last_alloc
        → length v.table ≡ tc
        → length bytes ≤ fuel
        → get_or v.table p 0 ≡ fat_entry_end
        → Follows p v bytes k (copy_parts f start tc fuel bytes k v)
    unfolding copy_parts copied_part
    copy_parts-Follows zero p [] k v prev before low whole enough last =
        ([], refl, omega arith, last, refl, tt, λ e d under other. refl, λ o n under. refl)
    copy_parts-Follows zero p (b ∷ bs) k v prev before low whole enough last =
        absurd (omega (arith, enough))
    copy_parts-Follows (suc fuel) p [] k v prev before low whole enough last =
        ([], refl, omega arith, last, refl, tt, λ e d under other. refl, λ o n under. refl)
    copy_parts-Follows (suc fuel) p (b ∷ bs) k v prev before low whole enough last =
        elim (take_cluster-cases tc v) [
          | inl full ↦ rw (full, copy_parts) tt
          | inr (c, from, to, free, found) ↦
              let bytes = b ∷ bs in
              let part = take cluster_bytes bytes in
              let wrote = f.pwrite v.file (cluster_offset start c) part in
              let table1 = set v.table c fat_entry_end in
              let linked : link c k table1 ≡ set table1 p c = unfold link in rw (prev, link) refl in
              let k2 = copied_part c (length part) k in
              let fits : length (drop cluster_bytes bytes) ≤ fuel =
                omega (arith, enough, length-drop cluster_bytes bytes) in
              rw (found, copy_parts)
                (elim (Bool-cases (wrote.0 == length part)) [
                  | inl ok ↦
                      rw (ok, copy_parts)
                        (rw linked (
                          Follows-later v c bytes low from to p k _ prev before whole free
                            ((==_iff wrote.0 (length part)).0 ok)
                            (copy_parts-Follows fuel c (drop cluster_bytes bytes) k2
                              (record {
                                file = wrote.1;
                                table = set table1 p c;
                                last_alloc = c + 1;
                              })
                              refl (omega arith) (omega (arith, low, from))
                              (length-set table1 p c ∙ length-set v.table c fat_entry_end ∙ whole)
                              fits
                              (get_or-set_ne table1 p c c 0
                                  (λ q. absurd (omega (arith, q, before, from)))
                                ∙ get_or-set_self v.table c fat_entry_end 0
                                    (omega (arith, whole, to))))))
                  | inr bad ↦ rw (bad, copy_parts) tt
                ])
        ]
