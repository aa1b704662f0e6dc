-- ===== src/Checksum.antt =====
-- std/checksum.c: the hash of names and entries, murmur3 in its 32-bit form, over a list of bytes. A
-- block is read as a little-endian `unsigned int`.
use ni_fat.Base.{
  ℕ, ◌+◌, ◌-◌, ◌*◌, ◌/◌, ◌^◌, ◌<◌, List, [], ◌∷◌, length, bit_or, bit_xor, u32, arith,
}
use ni_fat.Base.Bits.{bit_xor-lt}

unfoldable pub rotl32 : ℕ → ℕ → ℕ
rotl32 x r = bit_or (u32 (x * 2 ^ r)) (x / 2 ^ (32 - r))

unfoldable pub fmix32 : ℕ → ℕ
fmix32 h =
    let a = bit_xor h (h / 0x10000) in
    let b = u32 (a * 0x85ebca6b) in
    let c = bit_xor b (b / 0x2000) in let e = u32 (c * 0xc2b2ae35) in bit_xor e (e / 0x10000)

-- `k1` before it goes into `h1`
unfoldable pub scramble : ℕ → ℕ
scramble k = u32 (rotl32 (u32 (k * 0xcc9e2d51)) 15 * 0x1b873593)

unfoldable pub mix_block : ℕ → ℕ → ℕ
mix_block h k = u32 (rotl32 (bit_xor h (scramble k)) 13 * 5 + 0xe6546b64)

-- the loop over the blocks and the `switch` on the bytes that are left
unfoldable pub mix_bytes : ℕ → List ℕ → ℕ
mix_bytes h [] = h
mix_bytes h (a ∷ []) = bit_xor h (scramble a)
mix_bytes h (a ∷ b ∷ []) = bit_xor h (scramble (bit_xor (b * 0x100) a))
mix_bytes h (a ∷ b ∷ c ∷ []) = bit_xor h (scramble (bit_xor (bit_xor (c * 0x10000) (b * 0x100)) a))
mix_bytes h (a ∷ b ∷ c ∷ e ∷ rest) =
    mix_bytes (mix_block h (a + b * 0x100 + c * 0x10000 + e * 0x1000000)) rest

-- `nft32_murmur3_x86_32` of `len` bytes
unfoldable pub murmur3 : List ℕ → ℕ → ℕ
murmur3 key seed = fmix32 (bit_xor (mix_bytes seed key) (length key))

-- A hash is a word of 32 bits.
pub murmur3-lt : (key : List ℕ) (seed : ℕ) → murmur3 key seed < 0x100000000
unfolding murmur3 fmix32
murmur3-lt key seed = bit_xor-lt 32 _ _ (omega arith) (omega arith)
