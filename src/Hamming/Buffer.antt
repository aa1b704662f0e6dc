-- ===== src/Hamming/Buffer.antt =====
-- The buffers of `encoded_t` that the metadata passes through on its way to the disk: the bytes of
-- a value are packed into 16-bit words, and the callbacks get those words as bytes. The machine
-- is little-endian with a 32-bit `unsigned int`.
pub mod Roundtrip
use ni_fat.Base.{ℕ, ◌+◌, ◌*◌, ◌/◌, ◌%◌, List, [], ◌∷◌}
use ni_fat.Hamming.{pack_memory, unpack_memory}

-- the bytes of an `unsigned int`, and the `unsigned int` of the first four bytes
unfoldable pub le32 : ℕ → List ℕ
le32 n = n % 256 ∷ n / 0x100 % 256 ∷ n / 0x10000 % 256 ∷ n / 0x1000000 % 256 ∷ []

unfoldable pub from_le32 : List ℕ → ℕ
from_le32 (a ∷ b ∷ c ∷ e ∷ rest) = a + b * 0x100 + c * 0x10000 + e * 0x1000000
from_le32 other = 0

-- an array of 16-bit words as bytes, and back
unfoldable pub word_bytes : List ℕ → List ℕ
word_bytes [] = []
word_bytes (w ∷ ws) = w % 256 ∷ w / 256 % 256 ∷ word_bytes ws

unfoldable pub bytes_words : List ℕ → List ℕ
bytes_words [] = []
bytes_words (a ∷ []) = a ∷ []
bytes_words (a ∷ b ∷ rest) = (a + b * 256) ∷ bytes_words rest

-- `nft32_pack_memory` into a buffer, seen as bytes; and `nft32_unpack_memory` out of one
unfoldable pub packed : List ℕ → List ℕ
packed bytes = word_bytes (pack_memory bytes)

unfoldable pub unpacked : List ℕ → List ℕ
unpacked buffer = unpack_memory (bytes_words buffer)
