-- ===== src/Hamming/Correct.antt =====
-- std/hamming.c: codewords, and codewords with a flipped bit, decoded.
use ni_fat.Base.{ℕ, ◌<◌, ◌==◌, ==_iff, true, ◌≡◌, refl, ap, arith, toggle_bit}
use ni_fat.Base.{List, [], ◌∷◌, ap₂, ◌⊎◌, inl, inr, u8, All}
use ni_fat.Base.Tables.{each_below, entry_of}
use ni_fat.Hamming.{encode, decode, get_byte, set_byte, unpack_memory, pack_memory}

clean_table : each_below 2048 (λ x. decode (encode x) == x) ≡ true
unfolding each_below decode encode
clean_table = refl

flip_table :
    each_below 2048 (λ x. each_below 16 (λ i. decode (toggle_bit (encode x) i) == x)) ≡ true
unfolding each_below decode encode
flip_table = refl

-- Decoding a codeword of eleven bits gives them back.
pub decode-encode : (x : ℕ) → x < 2048 → decode (encode x) ≡ x
decode-encode x h = (==_iff _ x).0 (entry_of 2048 _ x h clean_table)

-- Decoding gives back the eleven data bits after any one bit of the stored 16-bit word flipped.
pub decode-toggle_bit : (x i : ℕ) → x < 2048 → i < 16 → decode (toggle_bit (encode x) i) ≡ x
decode-toggle_bit x i h k = (==_iff _ x).0 (entry_of 16 _ i k (entry_of 2048 _ x h flip_table))

-- The word read is the word written, or differs from it in one bit.
abbrev pub IsNear : ℕ → ℕ → Type 0
IsNear w w' = (w' ≡ w) ⊎ ((i : ℕ) × (i < 16) × (w' ≡ toggle_bit w i))

abbrev pub AllNear : List ℕ → List ℕ → Type 0
AllNear [] [] = Unit
AllNear [] (_ ∷ _) = ⊥
AllNear (_ ∷ _) [] = ⊥
AllNear (w ∷ ws) (w' ∷ ws') = IsNear w w' × AllNear ws ws'

abbrev pub IsBytes : List ℕ → Type 0
IsBytes = All (λ b. b < 256)

get_byte-set_byte : (b w : ℕ) → b < 256 → IsNear (set_byte b) w → get_byte w ≡ b
unfolding get_byte set_byte
get_byte-set_byte b w h (inl e) =
    omega (arith, ap u8 e, ap u8 (ap decode e), decode-encode b (omega arith))
get_byte-set_byte b w h (inr (i, k, e)) =
    omega (arith, ap u8 (ap decode e), decode-toggle_bit b i (omega arith) k)

-- A buffer of bytes is read back as it was written, if at most one bit of each of its codewords
-- flipped on the disk in between.
pub unpack-pack_memory :
    (src stored : List ℕ)
    → IsBytes src
    → AllNear (pack_memory src) stored
    → unpack_memory stored ≡ src
unfolding pack_memory unpack_memory
unpack-pack_memory [] [] h n = refl
unpack-pack_memory [] (w ∷ ws) h n = absurd n
unpack-pack_memory (b ∷ bs) [] h n = absurd n
unpack-pack_memory (b ∷ bs) (w ∷ ws) h n =
    ap₂ ◌∷◌ (get_byte-set_byte b w h.0 n.0) (unpack-pack_memory bs ws h.1 n.1)
