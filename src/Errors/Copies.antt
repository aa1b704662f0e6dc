-- ===== src/Errors/Copies.antt =====
-- src/errors.c: the entries of the ring, written to all copies and read back from them.
use ni_fat.Base.{
  ℕ, zero, suc, ◌+◌, ◌*◌, ◌<◌, ◌≤◌, ◌≡◌, ◌≢◌, refl, sym, ap, ◌∙◌, arith, Bool, true, false,
}
use ni_fat.Base.{◌&&◌, ◌==◌, not, [], replicate, length-replicate, Option, none, some, u32}
use ni_fat.State.{FatData, Core, State, Driver}
use ni_fat.Vote.{Vote, start, step, replaces, needs_repair, votes}
use ni_fat.Vote.Majority.{step_match, votes-unanimous, count-replicate}
use ni_fat.Hamming.Buffer.{le32, packed}
use ni_fat.Hamming.Buffer.Roundtrip.{unpacked_value, length-packed-le32}
use ni_fat.Disk.Sectors.{at_rest}
use ni_fat.Disk.Single.{Holds, writeoff_once, readoff_once, overwrite_whole}
use ni_fat.Disk.Copies.{put_copies}
use ni_fat.Errors.{
  errors_sector, write_error_copy, write_error_copies, write_error, read_error_copy,
  read_error_copies, settle, read_error, no_code, count_code, adopt,
}

pub replaces_same : (v : Vote) (x : ℕ) → v.value ≡ x → replaces v x ≡ false
unfolding replaces
replaces_same v x h = ground arith

pub replaces_start : (x y : ℕ) → x ≢ y → replaces (start y) x ≡ true
unfolding replaces start
replaces_start x y h = ground arith

pub step_start : (x y : ℕ) → x ≢ y → (step (start y) x).value ≡ x
unfolding step replaces start
step_start x y h = ground arith

pub replicate-ne-nil : (n x : ℕ) → 0 < n → replicate n x ≢ []
replicate-ne-nil zero x h e = absurd (omega arith)
replicate-ne-nil (suc n) x h e = cc

module _ {S : Type 0} (d : Driver S) (fi : FatData) where
  -- the sector of each copy
  abbrev pub sector : ℕ → ℕ
  sector n = errors_sector n fi.total_sectors

  -- the writes of `_write_error`, without the locks on the sectors
  abbrev pub put : ℕ → ℕ → ℕ → ℕ → S → Bool × S
  put index c = put_copies d (u32 (index * 8)) (packed (le32 c)) sector

  and_regroup : (a b c : Bool) → (a && (b && c)) ≡ ((b && a) && c)
  and_regroup true true c = refl
  and_regroup true false c = refl
  and_regroup false true c = refl
  and_regroup false false c = refl

  and_true : (a : Bool) → (a && true) ≡ a
  and_true true = refl
  and_true false = refl

  write_error_copies-at_rest :
      (c : Core S) (e m f a index code n i : ℕ) (status : Bool)
      → u32 (index * 8) + 8 ≤ c.sector_size
      → write_error_copies d fi index code n i status (at_rest c e m f a)
        ≡ let p = put index code n i c.store in
          (p.0 && status, at_rest (record c { store = p.1 }) e m f a)
  unfolding write_error_copies write_error_copy put_copies
  write_error_copies-at_rest c e m f a index code zero i status h = refl
  write_error_copies-at_rest c e m f a index code (suc n) i status h =
      let w : ℕ × S = d.write_sector c.store (sector i) (u32 (index * 8)) (packed (le32 code)) in
      let c' : Core S = record c { store = w.1 } in
      rw
        (writeoff_once d c e m f a (sector i) (u32 (index * 8)) (packed (le32 code)) 8
          (length-packed-le32 code) (omega arith) h)
        (write_error_copies-at_rest c' e m f a index code n (i + 1) (not (w.0 == 0) && status) h
          ∙ ap
              (λ (b : Bool).
                (b, at_rest (record c { store = (put index code n (i + 1) w.1).1 }) e m f a))
              (and_regroup _ _ status))

  pub write_error-at_rest :
      (c : Core S) (e m f a index code : ℕ)
      → u32 (index * 8) + 8 ≤ c.sector_size
      → write_error d fi index code (at_rest c e m f a)
        ≡ let p = put index code fi.errors_count 0 c.store in
          (p.0, at_rest (record c { store = p.1 }) e m f a)
  unfolding write_error
  write_error-at_rest c e m f a index code h =
      write_error_copies-at_rest c e m f a index code fi.errors_count 0 true h
      ∙ ap
          (λ (b : Bool). (
            b,
            at_rest (record c { store = (put index code fi.errors_count 0 c.store).1 }) e m f a,
          ))
          (and_true _)

  settle_clean :
      (index : ℕ) (v : Vote) (i : ℕ) (s : State S)
      → needs_repair v ≡ false
      → settle d fi index ((v, some i), s) ≡ (some v.value, s)
  unfolding settle
  settle_clean index v i s h = rw h

  -- copy `j` of the entry `index` is the code
  abbrev pub Copy : Core S → ℕ → ℕ → ℕ → Type 0
  Copy c index code j =
      Holds d c.sector_size c.store (sector j) (u32 (index * 8)) (packed (le32 code))

  module _ (c : Core S) (e m f a index code : ℕ) (short : code < 0x100000000)
      (fits : u32 (index * 8) + 8 ≤ c.sector_size) where
    read_error_copy-at_rest :
        (i : ℕ)
        → Copy c index code i
        → read_error_copy d fi index i (at_rest c e m f a) ≡ (some code, at_rest c e m f a)
    unfolding read_error_copy
    read_error_copy-at_rest i held =
        rw
          (readoff_once d c e m f a (sector i) (u32 (index * 8)) (packed (le32 code))
            (replicate 8 0) 8 (length-packed-le32 code) (omega arith) fits held)
          (rw (overwrite_whole (replicate 8 0) (packed (le32 code)) (length-packed-le32 code))
            (rw (unpacked_value code short)))

    -- once the candidate is the code, the copies that hold it only confirm it
    read_error_copies-confirm :
        (n i : ℕ) (v : Vote) (copy : Option ℕ)
        → ((j : ℕ) → i ≤ j → j < i + n → Copy c index code j)
        → v.value ≡ code
        → read_error_copies d fi index n i v copy (at_rest c e m f a)
          ≡ ((votes v (replicate n code), copy), at_rest c e m f a)
    unfolding read_error_copies count_code adopt votes
    read_error_copies-confirm zero i v copy held q = refl
    read_error_copies-confirm (suc n) i v copy held q =
        rw (read_error_copy-at_rest i (held i (omega arith) (omega arith))) (
          rw (replaces_same v code q) (
            read_error_copies-confirm n (i + 1) (step v code) copy
              (λ j p r. held j (omega arith) (omega arith)) ((step_match v code (sym q)).0 ∙ q)))

    read_error_copies-all :
        (n : ℕ)
        → 0 < n
        → code ≢ no_code
        → ((j : ℕ) → j < n → Copy c index code j)
        → read_error_copies d fi index n 0 (start no_code) none (at_rest c e m f a)
          ≡ ((votes (start no_code) (replicate n code), some 0), at_rest c e m f a)
    unfolding read_error_copies count_code adopt votes
    read_error_copies-all zero p q held = absurd (omega arith)
    read_error_copies-all (suc n) p q held = rw (read_error_copy-at_rest 0 (held 0 (omega arith))) (
        rw (replaces_start code no_code q) (
          read_error_copies-confirm n 1 (step (start no_code) code) (some 0)
            (λ j p r. held j (omega arith)) (step_start code no_code q)))

    -- an entry whose copies all hold the code is read as that code, and nothing changes
    pub read_error-at_rest :
        0 < fi.errors_count
        → code ≢ no_code
        → ((j : ℕ) → j < fi.errors_count → Copy c index code j)
        → read_error d fi index (at_rest c e m f a) ≡ (some code, at_rest c e m f a)
    unfolding read_error
    read_error-at_rest p q held =
        let won =
          votes-unanimous no_code code (replicate fi.errors_count code) (replicate-ne-nil _ code p)
            (omega (
              arith,
              count-replicate fi.errors_count code,
              length-replicate fi.errors_count code,
            )) in
        ap (settle d fi index) (read_error_copies-all fi.errors_count p q held)
        ∙ settle_clean index _ 0 _ won.1
        ∙ ap (λ (x : ℕ). (some x, at_rest c e m f a)) won.0
