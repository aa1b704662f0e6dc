-- ===== src/Hamming/Buffer/Roundtrip.antt =====
-- Values packed into a buffer and unpacked again.
use ni_fat.Base.{
  ℕ, ◌*◌, ◌<◌, ◌≡◌, refl, ap, ap₂, ◌∙◌, arith, List, [], ◌∷◌, length, All, inl, true, ltb, ltb→lt,
}
use ni_fat.Hamming.{set_byte, encode, pack_memory, unpack_memory}
use ni_fat.Hamming.Correct.{IsBytes, AllNear, unpack-pack_memory}
use ni_fat.Base.Tables.{each_below, entry_of}
use ni_fat.Hamming.Buffer.{le32, from_le32, word_bytes, bytes_words, packed, unpacked}

encode_table : each_below 256 (λ x. ltb (encode x) 65536) ≡ true
unfolding each_below encode
encode_table = refl

set_byte-lt : (b : ℕ) → b < 256 → set_byte b < 65536
unfolding set_byte
set_byte-lt b h = ltb→lt _ _ (entry_of 256 _ b h encode_table)

bytes_words-word_bytes : (ws : List ℕ) → All (λ w. w < 65536) ws → bytes_words (word_bytes ws) ≡ ws
unfolding bytes_words word_bytes
bytes_words-word_bytes [] h = refl
bytes_words-word_bytes (w ∷ ws) h = ap₂ ◌∷◌ (omega arith) (bytes_words-word_bytes ws h.1)

pack_memory-words : (bs : List ℕ) → IsBytes bs → All (λ w. w < 65536) (pack_memory bs)
unfolding pack_memory
pack_memory-words [] h = tt
pack_memory-words (b ∷ bs) h = (set_byte-lt b h.0, pack_memory-words bs h.1)

AllNear-refl : (ws : List ℕ) → AllNear ws ws
AllNear-refl [] = tt
AllNear-refl (w ∷ ws) = (inl refl, AllNear-refl ws)

pub unpacked-packed : (bs : List ℕ) → IsBytes bs → unpacked (packed bs) ≡ bs
unfolding packed unpacked
unpacked-packed bs h =
    ap unpack_memory (bytes_words-word_bytes (pack_memory bs) (pack_memory-words bs h))
    ∙ unpack-pack_memory bs (pack_memory bs) h (AllNear-refl (pack_memory bs))

pub length-packed : (bs : List ℕ) → length (packed bs) ≡ 2 * length bs
unfolding packed word_bytes pack_memory
length-packed [] = omega arith
length-packed (b ∷ bs) = omega (arith, length-packed bs)

pub le32-IsBytes : (n : ℕ) → IsBytes (le32 n)
unfolding le32
le32-IsBytes n = omega arith

pub from_le32-le32 : (n : ℕ) → n < 0x100000000 → from_le32 (le32 n) ≡ n
unfolding le32 from_le32
from_le32-le32 n h = omega arith

-- an `unsigned int` packed for the disk and unpacked again
pub unpacked_value : (n : ℕ) → n < 0x100000000 → from_le32 (unpacked (packed (le32 n))) ≡ n
unpacked_value n h = ap from_le32 (unpacked-packed (le32 n) (le32-IsBytes n)) ∙ from_le32-le32 n h

pub length-packed-le32 : (n : ℕ) → length (packed (le32 n)) ≡ 8
length-packed-le32 n = length-packed (le32 n) ∙ unfold le32 in refl
