-- ===== src/Base/Words.antt =====
-- Machine words: the shifts, the bit macros of include/std/hamming.h and the cast to 32 bits.
use Prim.Native.Nat.{ℕ, ◌-◌, ◌/◌, ◌%◌, ◌^◌, bit_and, bit_or, bit_xor}
use ni_fat.Base.Tests.{◌==◌, if◌then◌else◌}

abbrev pub u8 : ℕ → ℕ
u8 n = n % 0x100

abbrev pub u16 : ℕ → ℕ
u16 n = n % 0x10000

abbrev pub u32 : ℕ → ℕ
u32 n = n % 0x100000000

-- GET_BIT: `(byte >> pos) & 1`
abbrev pub get_bit : ℕ → ℕ → ℕ
get_bit w pos = w / 2 ^ pos % 2

-- SET_BIT on a 16-bit word: `bit ? byte | (1 << pos) : byte & ~(1 << pos)`
abbrev pub set_bit : ℕ → ℕ → ℕ → ℕ
set_bit w pos bit = if bit == 0 then bit_and w (0xffff - 2 ^ pos) else bit_or w (2 ^ pos)

-- TOGGLE_BIT: `byte ^ (1 << pos)`
abbrev pub toggle_bit : ℕ → ℕ → ℕ
toggle_bit w pos = bit_xor w (2 ^ pos)
