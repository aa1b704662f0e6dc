-- ===== src/Strings/Laws.antt =====
-- The loops of std/str.c against what they are for.
use ni_fat.Base.{
  ℕ, zero, suc, ◌+◌, ◌*◌, ◌/◌, ◌%◌, ◌<◌, ◌≤◌, ◌==◌, ◌≡◌, refl, ap, ap₂, ◌∙◌, arith, Bool, true,
  ◌&&◌, Bool-cases, ==→ne, inl, inr,
}
use ni_fat.Base.{List, [], ◌∷◌, ◌++◌, length, get_or, take, drop, replicate, ◌↔◌}
use ni_fat.Base.Tables.{each_below, entry_of}
use ni_fat.Disk.Transfer.{drop-drop, drop-nil}
use ni_fat.Hamming.Buffer.{le32}
use ni_fat.Strings.{
  copy_bytes, copy_words, memcpy, four_times, fill_bytes, fill_words, memset, pos, difference,
  memcmp,
}

copy_bytes-take :
    (n : ℕ) (dst src : List ℕ) → n ≤ length src → copy_bytes n dst src ≡ take n src ++ drop n dst
unfolding copy_bytes
copy_bytes-take zero dst src h = refl
copy_bytes-take (suc n) dst [] h = absurd (omega arith)
copy_bytes-take (suc n) [] (c ∷ cs) h =
    ap (λ r. c ∷ r)
      (copy_bytes-take n [] cs (omega arith) ∙ ap (λ (r : List ℕ). take n cs ++ r) (drop-nil n))
copy_bytes-take (suc n) (d ∷ ds) (c ∷ cs) h =
    ap (λ r. c ∷ r) (copy_bytes-take n ds cs (omega arith))

copy_words-take :
    (n rest : ℕ) (dst src : List ℕ)
    → n * 4 + rest ≤ length src
    → copy_words n rest dst src ≡ take (n * 4 + rest) src ++ drop (n * 4 + rest) dst
unfolding copy_words
copy_words-take zero rest dst src h =
    let none_left : 0 * 4 + rest ≡ rest = omega arith in
    rw none_left (copy_bytes-take rest dst src (omega arith))
copy_words-take (suc n) rest dst [] h = absurd (omega arith)
copy_words-take (suc n) rest dst (a ∷ []) h = absurd (omega arith)
copy_words-take (suc n) rest dst (a ∷ (b ∷ [])) h = absurd (omega arith)
copy_words-take (suc n) rest dst (a ∷ (b ∷ (c ∷ []))) h = absurd (omega arith)
copy_words-take (suc n) rest dst (a ∷ (b ∷ (c ∷ (d ∷ cs)))) h =
    let size : suc n * 4 + rest ≡ suc (suc (suc (suc (n * 4 + rest)))) = omega arith in
    let ahead : 4 + (n * 4 + rest) ≡ suc (suc (suc (suc (n * 4 + rest)))) = omega arith in
    rw size (
      ap (λ r. a ∷ b ∷ c ∷ d ∷ r)
        (copy_words-take n rest (drop 4 dst) cs (omega arith)
          ∙ ap (λ (r : List ℕ). take (n * 4 + rest) cs ++ r) (drop-drop (n * 4 + rest) 4 dst)
          ∙ ap (λ (m : ℕ). take (n * 4 + rest) cs ++ drop m dst) ahead))

-- memcpy puts the first `num` bytes of the source, which has them, in front of what lies behind the
-- first `num` bytes of the destination.
pub memcpy-take :
    (dst src : List ℕ) (num : ℕ)
    → num ≤ length src
    → memcpy dst src num ≡ take num src ++ drop num dst
unfolding memcpy
memcpy-take dst src num h =
    let whole : num / 4 * 4 + num % 4 ≡ num = omega arith in
    copy_words-take (num / 4) (num % 4) dst src (omega arith) ∙ rw whole

is_four_times : ℕ → ℕ → Bool
is_four_times value word =
    word % 256 == value
    && word / 0x100 % 256 == value
    && (word / 0x10000 % 256 == value && word / 0x1000000 % 256 == value)

four_bytes :
    (value word : ℕ)
    → is_four_times value word ≡ true
    → le32 word ≡ value ∷ value ∷ value ∷ value ∷ []
unfolding is_four_times le32
four_bytes value word h = ground arith

four_times-bytes :
    (value : ℕ) → value < 256 → le32 (four_times value) ≡ value ∷ value ∷ value ∷ value ∷ []
four_times-bytes value h =
    let table : each_below 256 (λ v. is_four_times v (four_times v)) ≡ true =
      unfold each_below in unfold is_four_times in unfold four_times in refl in
    four_bytes value (four_times value)
      (entry_of 256 (λ v. is_four_times v (four_times v)) value h table)

fill_bytes-replicate :
    (value n : ℕ) (dst : List ℕ) → fill_bytes value n dst ≡ replicate n value ++ drop n dst
unfolding fill_bytes
fill_bytes-replicate value zero dst = refl
fill_bytes-replicate value (suc n) dst =
    let ahead : 1 + n ≡ suc n = omega arith in
    ap (λ r. value ∷ r)
      (fill_bytes-replicate value n (drop 1 dst)
        ∙ ap (λ (r : List ℕ). replicate n value ++ r) (drop-drop n 1 dst)
        ∙ ap (λ (m : ℕ). replicate n value ++ drop m dst) ahead)

fill_words-replicate :
    (value : ℕ)
    → value < 256
    → (n rest : ℕ) (dst : List ℕ)
    → fill_words value n rest dst ≡ replicate (n * 4 + rest) value ++ drop (n * 4 + rest) dst
unfolding fill_words
fill_words-replicate value bound zero rest dst =
    let none_left : 0 * 4 + rest ≡ rest = omega arith in
    rw none_left (fill_bytes-replicate value rest dst)
fill_words-replicate value bound (suc n) rest dst =
    let size : suc n * 4 + rest ≡ suc (suc (suc (suc (n * 4 + rest)))) = omega arith in
    let ahead : 4 + (n * 4 + rest) ≡ suc (suc (suc (suc (n * 4 + rest)))) = omega arith in
    ap (λ (r : List ℕ). r ++ fill_words value n rest (drop 4 dst)) (four_times-bytes value bound)
    ∙ rw size (
        ap (λ r. value ∷ value ∷ value ∷ value ∷ r)
          (fill_words-replicate value bound n rest (drop 4 dst)
            ∙ ap (λ (r : List ℕ). replicate (n * 4 + rest) value ++ r)
                (drop-drop (n * 4 + rest) 4 dst ∙ ap (λ (m : ℕ). drop m dst) ahead)))

-- memset puts `num` copies of a byte in front of what lies behind the first `num` bytes of the
-- destination.
pub memset-replicate :
    (dst : List ℕ) (value num : ℕ)
    → value < 256
    → memset dst value num ≡ replicate num value ++ drop num dst
unfolding memset
memset-replicate dst value num bound =
    let whole : num / 4 * 4 + num % 4 ≡ num = omega arith in
    fill_words-replicate value bound (num / 4) (num % 4) dst ∙ rw whole

difference_same : (a b : ℕ) → difference a b ≡ pos 0 → a ≡ b
unfolding difference
difference_same a b h = ground arith

same_rest {ℓ} :
    (x y : ℕ) (xs ys : List ℕ) (n : ℕ)
    → x ≡ y
    → (P : Type ℓ) → (P ↔ (take n xs ≡ take n ys))
    → P ↔ (x ∷ take n xs ≡ y ∷ take n ys)
same_rest x y xs ys n e P h = ((λ p. ap₂ (λ a r. a ∷ r) e (h.0 p)), (λ t. h.1 (ap (drop 1) t)))

==→eq : (a b : ℕ) → (a == b) ≡ true → a ≡ b
==→eq a b h = ground arith

-- memcmp answers 0 exactly if the first `num` bytes, which both areas have, agree.
pub memcmp-take :
    (num : ℕ) (xs ys : List ℕ)
    → num ≤ length xs
    → num ≤ length ys
    → (memcmp xs ys num ≡ pos 0) ↔ (take num xs ≡ take num ys)
unfolding memcmp
memcmp-take zero xs ys hx hy = ((λ e. refl), (λ e. refl))
memcmp-take (suc n) [] ys hx hy = absurd (omega arith)
memcmp-take (suc n) (x ∷ xs) [] hx hy = absurd (omega arith)
memcmp-take (suc n) (x ∷ xs) (y ∷ ys) hx hy = elim (Bool-cases (x == y)) [
  | inl e ↦ rw e (
      same_rest x y xs ys n (==→eq x y e) (memcmp xs ys n ≡ pos 0)
        (memcmp-take n xs ys (omega arith) (omega arith)))
  | inr e ↦ rw e (
    (λ d. absurd (==→ne e (difference_same x y d))),
    (λ t. absurd (==→ne e (ap (λ l. get_or l 0 0) t))),
  )
]
