-- ===== src/Tests/Hash.antt =====
-- The hash at published values.
use ni_fat.Base.{◌≡◌, refl, [], ◌∷◌}
use ni_fat.Checksum.{rotl32, fmix32, scramble, mix_block, mix_bytes, murmur3}

empty_hash : murmur3 [] 1 ≡ 0x514e28b7
unfolding rotl32 fmix32 scramble mix_block mix_bytes murmur3
empty_hash = refl

-- "test"
block_hash : murmur3 (116 ∷ 101 ∷ 115 ∷ 116 ∷ []) 0 ≡ 0xba6bd213
unfolding rotl32 fmix32 scramble mix_block mix_bytes murmur3
block_hash = refl

-- "Hello, world!"
tail_hash :
    murmur3 (72 ∷ 101 ∷ 108 ∷ 108 ∷ 111 ∷ 44 ∷ 32 ∷ 119 ∷ 111 ∷ 114 ∷ 108 ∷ 100 ∷ 33 ∷ []) 0
    ≡ 0xc0363e43
unfolding rotl32 fmix32 scramble mix_block mix_bytes murmur3
tail_hash = refl
