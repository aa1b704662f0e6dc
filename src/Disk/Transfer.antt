-- ===== src/Disk/Transfer.antt =====
-- src/disk.c, the rounds of `DSK_writeoff_sectors` and `DSK_readoff_sectors` on the same sectors.
use mathlib.Core.List.{append_assoc}
use mathlib.Core.Bool.{true≢false}
use ni_fat.Base.{ℕ, zero, suc, ◌+◌, ◌-◌, ◌*◌, ◌<◌, ◌≤◌, ◌≡◌, ◌≢◌, refl, arith, Bool, true, false}
use ni_fat.Base.{◌⊎◌, inl, inr, ltb, ◌==◌, Bool-cases, ap, sym, ◌∙◌, ltb→lt, lt→ltb}
use ni_fat.Base.{List, [], ◌∷◌, ◌++◌, length, take, drop, length-take, length-drop, length-append}
use ni_fat.Base.{take-append-drop, u32, ne→==, ==→ne}
use native.Mathlib.Numerals.{add-one}
use ni_fat.State.{Driver, IsDevice}
use ni_fat.Disk.{read_rounds, write_rounds, overwrite, min_of}

module _ {ℓ} {A : Type ℓ} where
  pub drop-append : (xs ys : List A) → drop (length xs) (xs ++ ys) ≡ ys
  drop-append [] ys = refl
  drop-append (x ∷ xs) ys = drop-append xs ys

  pub take-append : (xs ys : List A) → take (length xs) (xs ++ ys) ≡ xs
  take-append [] ys = refl
  take-append (x ∷ xs) ys = ap (λ r. x ∷ r) (take-append xs ys)

  pub drop-nil : (n : ℕ) → drop {A = A} n [] ≡ []
  drop-nil zero = refl
  drop-nil (suc n) = refl

  pub drop-drop : (m n : ℕ) (xs : List A) → drop m (drop n xs) ≡ drop (n + m) xs
  drop-drop m zero xs = let e : 0 + m ≡ m = omega arith in rw e
  drop-drop m (suc n) [] = drop-nil m ∙ sym (drop-nil (suc n + m))
  drop-drop m (suc n) (x ∷ xs) =
      let e : suc n + m ≡ suc (n + m) = omega arith in rw e (drop-drop m n xs)

-- storing two pieces one after the other is storing them at once
pub overwrite-append :
    (buffer xs ys : List ℕ)
    → xs ++ overwrite (drop (length xs) buffer) ys ≡ overwrite buffer (xs ++ ys)
overwrite-append buffer xs ys = simp (drop-drop, append_assoc, length-append)

min_of-le : (room left : ℕ) → (min_of room left ≤ room) × (min_of room left ≤ left)
min_of-le room left = ground arith

pub length-chunk : (n : ℕ) (bytes : List ℕ) → n ≤ length bytes → length (take n bytes) ≡ n
length-chunk n bytes h = omega (arith, length-take n bytes)

length-take-le : (n : ℕ) (bytes : List ℕ) → length (take n bytes) ≤ n
length-take-le n bytes = omega (arith, length-take n bytes)

module _ {S : Type 0} (d : Driver S) (ss : ℕ) (dev : IsDevice d ss) where
  -- the rounds leave the sectors outside their run alone
  pub write_rounds-apart :
      (n : ℕ) (t : S) (sa off left : ℕ) (bytes : List ℕ) (sb o k : ℕ)
      → sa + n < 0x100000000
      → (sb < sa) ⊎ (sa + n ≤ sb)
      → o + k ≤ ss
      → d.read_sector (write_rounds d t ss n sa off left bytes).1 sb o k ≡ d.read_sector t sb o k
  unfolding write_rounds
  write_rounds-apart zero t sa off left bytes sb o k h p q = refl
  write_rounds-apart (suc n) t sa off left bytes sb o k h p q = elim (Bool-cases (left == 0)) [
    | inl e ↦ rw e
    | inr e ↦ elim (Bool-cases (ltb ss off)) [
      | inl skip ↦
          rw (e, skip)
            (write_rounds-apart n t (u32 (sa + 1)) (off - ss) left bytes sb o k (omega arith)
              (omega arith) q)
      | inr here ↦
          let size : ℕ = min_of (ss - off) left in
          let t' : S = (d.write_sector t sa off (take size bytes)).1 in
          let first : d.read_sector t' sb o k ≡ d.read_sector t sb o k =
            dev.read_apart t sa off (take size bytes) sb o k
              (ground (arith, length-take-le size bytes, min_of-le (ss - off) left)) q
              (inl (omega arith)) in
          elim (Bool-cases ((d.write_sector t sa off (take size bytes)).0 == 0)) [
            | inl bad ↦ rw (e, here, bad) first
            | inr good ↦
                rw (e, here, good)
                  (write_rounds-apart n t' (u32 (sa + 1)) 0 (left - size) (drop size bytes) sb o k
                      (omega arith) (omega arith) q
                    ∙ first)
          ]
    ]
  ]

  module _ (n : ℕ) (t : S) (sa off left : ℕ) (some_left : (left == 0) ≡ false) where
    write_skip :
        (bytes : List ℕ)
        → ltb ss off ≡ true
        → write_rounds d t ss (suc n) sa off left bytes
          ≡ write_rounds d t ss n (u32 (sa + 1)) (off - ss) left bytes
    unfolding write_rounds
    write_skip bytes e = rw (some_left, e)

    read_skip :
        (buffer : List ℕ)
        → ltb ss off ≡ true
        → read_rounds d t ss (suc n) sa off left buffer
          ≡ read_rounds d t ss n (u32 (sa + 1)) (off - ss) left buffer
    unfolding read_rounds
    read_skip buffer e = rw (some_left, e)

    module _ (here : ltb ss off ≡ false) where
      write_chunk :
          (bytes : List ℕ) (size : ℕ)
          → size ≡ min_of (ss - off) left
          → ((d.write_sector t sa off (take size bytes)).0 == 0) ≡ false
          → write_rounds d t ss (suc n) sa off left bytes
            ≡ write_rounds d
                (d.write_sector t sa off (take size bytes)).1
                ss
                n
                (u32 (sa + 1))
                0
                (left - size)
                (drop size bytes)
      unfolding write_rounds
      write_chunk bytes size e f = rw (some_left, here, ← e, f)

      write_fault :
          (bytes : List ℕ) (size : ℕ)
          → size ≡ min_of (ss - off) left
          → ((d.write_sector t sa off (take size bytes)).0 == 0) ≡ true
          → (write_rounds d t ss (suc n) sa off left bytes).0 ≡ false
      unfolding write_rounds
      write_fault bytes size e f = rw (some_left, here, ← e, f)

      read_chunk :
          (buffer chunk : List ℕ)
          → length chunk ≡ min_of (ss - off) left
          → (d.read_sector t sa off (length chunk)).0 ≢ 0
          → (d.read_sector t sa off (length chunk)).1 ≡ chunk
          → read_rounds d t ss (suc n) sa off left buffer
            ≡ let rest =
                read_rounds d t ss n
                  (u32 (sa + 1))
                  0
                  (left - length chunk)
                  (drop (length chunk) buffer) in
              (rest.0, chunk ++ rest.1)
      unfolding read_rounds
      read_chunk buffer chunk e f g =
          rw (some_left, here, ← e, ne→== f, g, take-append, drop-append)

  -- Bytes written over a run of sectors that holds them are what reading the run gives.
  pub read-write_rounds :
      (n : ℕ) (t : S) (sa off : ℕ) (bytes buffer : List ℕ)
      → sa + n < 0x100000000
      → off + length bytes ≤ n * ss
      → (write_rounds d t ss n sa off (length bytes) bytes).0 ≡ true
      → read_rounds d
          (write_rounds d t ss n sa off (length bytes) bytes).1
          ss
          n
          sa
          off
          (length bytes)
          buffer
        ≡ (true, overwrite buffer bytes)
  read-write_rounds zero t sa off [] buffer h fits w = unfold read_rounds in refl
  read-write_rounds zero t sa off (b ∷ bs) buffer h fits w = absurd (omega arith)
  read-write_rounds (suc n) t sa off [] buffer h fits w = unfold read_rounds in refl
  read-write_rounds (suc n) t sa off (b ∷ bs) buffer h fits w =
      let bytes : List ℕ = b ∷ bs in
      let more : (length bytes == 0) ≡ false = ne→== (omega arith) in
      elim (Bool-cases (ltb ss off)) [
        | inl skip ↦
            let e : write_rounds d t ss (suc n) sa off (length bytes) bytes
                ≡ write_rounds d t ss n (u32 (sa + 1)) (off - ss) (length bytes) bytes =
              write_skip n t sa off (length bytes) more bytes skip in
            rw (e, read_skip n _ sa off (length bytes) more buffer skip)
              (read-write_rounds n t (u32 (sa + 1)) (off - ss) bytes buffer (omega arith)
                (omega (arith, ltb→lt ss off skip)) (rw e at w))
        | inr here ↦
            let size : ℕ = min_of (ss - off) (length bytes) in
            let chunk : List ℕ = take size bytes in
            let t' : S = (d.write_sector t sa off chunk).1 in
            let small : (size ≤ ss - off) × (size ≤ length bytes) =
              min_of-le (ss - off) (length bytes) in
            let exact : length chunk ≡ size = length-chunk size bytes small.1 in
            elim (Bool-cases ((d.write_sector t sa off chunk).0 == 0)) [
              | inl bad ↦ absurd (
                  true≢false
                    (sym w ∙ write_fault n t sa off (length bytes) more here bytes size refl bad))
              | inr good ↦
                  let e : write_rounds d t ss (suc n) sa off (length bytes) bytes
                      ≡ write_rounds d t' ss n (u32 (sa + 1)) 0 (length (drop size bytes))
                          (drop size bytes) =
                    rw (length-drop size bytes)
                      (write_chunk n t sa off (length bytes) more here bytes size refl good) in
                  let far : S =
                    (write_rounds d t' ss n (u32 (sa + 1)) 0 (length (drop size bytes))
                      (drop size bytes)).1 in
                  let inside : off + length chunk ≤ ss = ground (arith, small, exact) in
                  let kept : d.read_sector far sa off (length chunk)
                      ≡ d.read_sector t' sa off (length chunk) =
                    write_rounds-apart n t' (u32 (sa + 1)) 0 (length (drop size bytes))
                      (drop size bytes) sa off (length chunk) (omega arith) (inl (omega arith))
                      inside in
                  let back : ((d.read_sector t' sa off (length chunk)).0 ≢ 0)
                      × ((d.read_sector t' sa off (length chunk)).1 ≡ chunk) =
                    dev.read_back t sa off chunk inside (==→ne good) in
                  let tail : List ℕ = drop size bytes in
                  let len : length bytes - length chunk ≡ length tail =
                    omega (arith, exact, length-drop size bytes) in
                  let rest : read_rounds d far ss n (u32 (sa + 1)) 0 (length bytes - length chunk)
                        (drop (length chunk) buffer)
                      ≡ (true, overwrite (drop (length chunk) buffer) tail) =
                    rw len (
                      read-write_rounds n t' (u32 (sa + 1)) 0 tail (drop (length chunk) buffer)
                        (omega arith) (ground (arith, length-drop size bytes, ltb→lt ss off))
                        (rw e at w)) in
                  let whole : chunk ++ overwrite (drop (length chunk) buffer) tail
                      ≡ overwrite buffer bytes =
                    overwrite-append buffer chunk tail
                    ∙ ap (overwrite buffer) (take-append-drop size bytes) in
                  rw e (
                    read_chunk n far sa off (length bytes) more here buffer chunk exact
                      (rw kept back.0) (rw kept back.1)
                    ∙ ap (λ (r : Bool × List ℕ). (r.0, chunk ++ r.1)) rest
                    ∙ ap (λ (r : List ℕ). (true, r)) whole)
            ]
      ]

-- Rounds whose offset lies past their run report success and move nothing.
pub rounds_past_end :
    {S : Type 0} (d : Driver S) (ss n : ℕ) (t : S) (sa off left : ℕ) (bytes buffer : List ℕ)
    → n * ss < off
    → (write_rounds d t ss n sa off left bytes ≡ (true, t))
      × (read_rounds d t ss n sa off left buffer ≡ (true, buffer))
unfolding write_rounds read_rounds
rounds_past_end d ss zero t sa off left bytes buffer h = (refl, refl)
rounds_past_end d ss (suc n) t sa off left bytes buffer h = elim (Bool-cases (left == 0)) [
  | inl e ↦ rw e (refl, refl)
  | inr e ↦
      rw (e, lt→ltb ss off (omega (arith, ap (λ (k : ℕ). k * ss) (add-one n))))
        (rounds_past_end d ss n t (u32 (sa + 1)) (off - ss) left bytes buffer (omega arith))
]
