-- ===== src/Formatter/Copies.antt =====
-- formatter/nifat32formatter.c: the copies of the boot sector that `_write_bs` leaves in a file.
use ni_fat.Base.{
  ℕ, zero, suc, ◌+◌, ◌-◌, ◌*◌, ◌<◌, ◌≤◌, ◌==◌, ◌≡◌, ◌≢◌, ◌⊎◌, inl, inr, refl, sym, ap, subst, ◌∙◌,
  arith, Bool, true, false, ==_iff, ltb, ltb→lt, ==→ne, Bool-cases, List, [], ◌∷◌, ◌++◌, length,
  take, drop, replicate, length-replicate, u32,
}
use mathlib.Core.Bool.{true≢false}
use native.Mathlib.Nat.{mod-lt}
use ni_fat.Disk.{overwrite}
use ni_fat.Boot.{boot_sector}
use ni_fat.Formatter.Files.{Posix}
use ni_fat.Formatter.{put_bytes, and_then, put_boot, put_all}

-- A file: what is written as a whole is there, what is apart from it stays, and a read gives as many
-- bytes as it asks for, those of a shorter read first.
pub record IsFile {S : Type 0} (f : Posix S) : Type 0 where
  pub written :
      (t : S) (off : ℕ) (bytes : List ℕ)
      → (f.pwrite t off bytes).0 ≡ length bytes
      → f.pread (f.pwrite t off bytes).1 off (length bytes) ≡ bytes
  pub apart :
      (t : S) (off : ℕ) (bytes : List ℕ) (o n : ℕ)
      → (o + n ≤ off) ⊎ (off + length bytes ≤ o)
      → f.pread (f.pwrite t off bytes).1 o n ≡ f.pread t o n
  pub front : (t : S) (o m n : ℕ) → m ≤ n → take m (f.pread t o n) ≡ f.pread t o m
  pub whole : (t : S) (o n : ℕ) → length (f.pread t o n) ≡ n

take-front : (n : ℕ) (xs ys : List ℕ) → n ≤ length xs → take n (xs ++ ys) ≡ take n xs
take-front zero xs ys h = refl
take-front (suc n) [] ys h = absurd (omega arith)
take-front (suc n) (x ∷ xs) ys h = ap (λ (r : List ℕ). x ∷ r) (take-front n xs ys (omega arith))

module _ {S : Type 0} (f : Posix S) (file : IsFile f) where
  put_bytes-apart :
      (t : S) (off : ℕ) (bytes : List ℕ) (o n : ℕ)
      → (o + n ≤ off) ⊎ (off + length bytes ≤ o)
      → f.pread (put_bytes f off bytes t).1 o n ≡ f.pread t o n
  unfolding put_bytes
  put_bytes-apart = file.apart

  put_bytes-stored :
      (t : S) (off : ℕ) (bytes : List ℕ)
      → (put_bytes f off bytes t).0 ≡ true
      → f.pread (put_bytes f off bytes t).1 off (length bytes) ≡ bytes
  unfolding put_bytes
  put_bytes-stored t off bytes ok =
      file.written t off bytes ((==_iff (f.pwrite t off bytes).0 (length bytes)).0 ok)

  then-stored :
      (off : ℕ) (bytes : List ℕ) (r : Bool × S)
      → (and_then f r (put_bytes f off bytes)).0 ≡ true
      → f.pread (and_then f r (put_bytes f off bytes)).1 off (length bytes) ≡ bytes
  then-stored off bytes (true, t) ok = put_bytes-stored t off bytes ok
  then-stored off bytes (false, t) ok = absurd (true≢false (sym ok))

  then-apart :
      (off : ℕ) (bytes : List ℕ) (r : Bool × S) (o n : ℕ)
      → (o + n ≤ off) ⊎ (off + length bytes ≤ o)
      → f.pread (and_then f r (put_bytes f off bytes)).1 o n ≡ f.pread r.1 o n
  then-apart off bytes (true, t) o n away = put_bytes-apart t off bytes o n away
  then-apart off bytes (false, t) o n away = refl

  -- two calls that both went well
  then-both :
      (P : S → Type 0) (r : Bool × S) (next : S → Bool × S)
      → (r.0 ≡ true → (next r.1).0 ≡ true → P (next r.1).1)
      → (and_then f r next).0 ≡ true
      → P (and_then f r next).1
  then-both P (true, t) next both ok = both refl ok
  then-both P (false, t) next both ok = absurd (true≢false (sym ok))

  module _ (ts : ℕ) (bytes : List ℕ) (size : length bytes ≡ 162) (large : 2 < ts)
      (small : ts ≤ 0x800000) where
    -- where a copy stands
    unfoldable pub copy_offset : ℕ → ℕ
    copy_offset k = boot_sector k ts * 512

    boot_sector-inside : (k : ℕ) → boot_sector k ts < ts - 2
    unfolding boot_sector
    boot_sector-inside k =
        let e : u32 (ts + 0x100000000 - 2) ≡ ts - 2 = omega arith in rw e (mod-lt _ (omega arith))

    copy_offset-small : (k : ℕ) → u32 (copy_offset k) ≡ copy_offset k
    unfolding copy_offset
    copy_offset-small k = omega (arith, boot_sector-inside k)

    -- the copy `k` is there
    abbrev pub Holds : ℕ → S → Type 0
    Holds k t = f.pread t (copy_offset k) 162 ≡ bytes

    -- the two transfers of a copy
    put_boot-twice :
        (i : ℕ) (t : S)
        → put_boot f ts bytes i t
          ≡ and_then f
              (put_bytes f (copy_offset i) (replicate 512 0) t)
              (put_bytes f (copy_offset i) bytes)
    unfolding put_boot copy_offset
    put_boot-twice i t =
        let at : u32 (boot_sector i ts * 512) ≡ boot_sector i ts * 512 =
          unfold copy_offset in copy_offset-small i in
        rw at refl

    put_boot-stores :
        (i : ℕ) (t : S) → (put_boot f ts bytes i t).0 ≡ true → Holds i (put_boot f ts bytes i t).1
    put_boot-stores i t =
        subst (λ (r : Bool × S). r.0 ≡ true → f.pread r.1 (copy_offset i) 162 ≡ bytes)
          (sym (put_boot-twice i t))
          (subst
            (λ (n : ℕ).
              (and_then f (put_bytes f (copy_offset i) (replicate 512 0) t)
                  (put_bytes f (copy_offset i) bytes)).0
                ≡ true
              → f.pread
                  (and_then f (put_bytes f (copy_offset i) (replicate 512 0) t)
                    (put_bytes f (copy_offset i) bytes)).1
                  (copy_offset i) n
                ≡ bytes)
            size
            (then-stored (copy_offset i) bytes (put_bytes f (copy_offset i) (replicate 512 0) t)))

    put_boot-apart :
        (k i : ℕ) (t : S)
        → boot_sector k ts ≢ boot_sector i ts
        → f.pread (put_boot f ts bytes i t).1 (copy_offset k) 162 ≡ f.pread t (copy_offset k) 162
    put_boot-apart k i t other =
        let clear = put_bytes f (copy_offset i) (replicate 512 0) t in
        let zeros : length {A = ℕ} (replicate 512 0) ≡ 512 = length-replicate {A = ℕ} 512 0 in
        let away : (copy_offset k + 162 ≤ copy_offset i) ⊎ (copy_offset i + 512 ≤ copy_offset k) =
          unfold copy_offset in
          elim (Bool-cases (ltb (boot_sector k ts) (boot_sector i ts))) [
            | inl before ↦ inl (omega (arith, ltb→lt (boot_sector k ts) (boot_sector i ts) before))
            | inr behind ↦
                let h : boot_sector i ts < boot_sector k ts = ground (arith, behind, other) in
                inr (omega (arith, h))
          ] in
        ap (λ (r : Bool × S). f.pread r.1 (copy_offset k) 162) (put_boot-twice i t)
        ∙ then-apart (copy_offset i) bytes clear (copy_offset k) 162
            (elim away [ inl x ↦ inl x | inr x ↦ inr (omega (arith, size)) ])
        ∙ put_bytes-apart t (copy_offset i) (replicate 512 0) (copy_offset k) 162
            (elim away [ inl x ↦ inl x | inr x ↦ inr (omega (arith, zeros)) ])

    put_boot-keeps :
        (k i : ℕ) (t : S)
        → Holds k t
        → (put_boot f ts bytes i t).0 ≡ true
        → Holds k (put_boot f ts bytes i t).1
    unfolding copy_offset
    put_boot-keeps k i t kept ok = elim (Bool-cases (boot_sector k ts == boot_sector i ts)) [
      | inl same ↦
          subst (λ (s : ℕ). f.pread (put_boot f ts bytes i t).1 (s * 512) 162 ≡ bytes)
            (sym ((==_iff (boot_sector k ts) (boot_sector i ts)).0 same)) (put_boot-stores i t ok)
      | inr other ↦ put_boot-apart k i t (==→ne other) ∙ kept
    ]

    -- a loop over copies keeps those that are there
    put_all-keeps :
        (n i k : ℕ) (t : S)
        → Holds k t
        → (put_all f (put_boot f ts bytes) n i t).0 ≡ true
        → Holds k (put_all f (put_boot f ts bytes) n i t).1
    unfolding put_all
    put_all-keeps zero i k t kept ok = kept
    put_all-keeps (suc n) i k t kept ok =
        then-both (Holds k) (put_boot f ts bytes i t) (put_all f (put_boot f ts bytes) n (i + 1))
          (λ here. put_all-keeps n (i + 1) k _ (put_boot-keeps k i t kept here)) ok

    -- and leaves all of its own
    pub put_all-stores :
        (n i k : ℕ) (t : S)
        → i ≤ k
        → k < i + n
        → (put_all f (put_boot f ts bytes) n i t).0 ≡ true
        → Holds k (put_all f (put_boot f ts bytes) n i t).1
    unfolding put_all
    put_all-stores zero i k t from to ok = absurd (omega arith)
    put_all-stores (suc n) i k t from to ok =
        then-both (Holds k) (put_boot f ts bytes i t) (put_all f (put_boot f ts bytes) n (i + 1))
          (λ here. elim (Bool-cases (i == k)) [
            | inl same ↦ put_all-keeps n (i + 1) k _ (
                subst (λ (j : ℕ). Holds j (put_boot f ts bytes i t).1) ((==_iff i k).0 same)
                  (put_boot-stores i t here))
            | inr other ↦ put_all-stores n (i + 1) k _ (ground (arith, ==→ne other)) (omega arith)
          ])
          ok

    -- what is read of a copy that is there
    pub read-copy :
        (k : ℕ) (t : S) (junk : List ℕ)
        → Holds k t
        → take 162 (overwrite junk (f.pread t (u32 (boot_sector k ts * 512 + 0)) 512)) ≡ bytes
    unfolding copy_offset
    read-copy k t junk kept =
        let at : u32 (boot_sector k ts * 512 + 0) ≡ boot_sector k ts * 512 =
          omega (arith, boot_sector-inside k) in
        let sector = f.pread t (boot_sector k ts * 512) 512 in
        rw at (
          take-front 162 sector (drop (length sector) junk)
            (omega (arith, file.whole t (boot_sector k ts * 512) 512))
          ∙ file.front t (boot_sector k ts * 512) 162 512 (omega arith)
          ∙ kept)
