-- ===== src/Hamming.antt =====
-- std/hamming.c: the Hamming (15, 11) code that every byte of the metadata on the disk is stored
-- in, and `nft32_pack_memory` and `nft32_unpack_memory`, which code a buffer byte by byte.
pub mod Correct
pub mod Buffer
use ni_fat.Base.{ℕ, ◌+◌, ◌*◌, ◌-◌, ◌==◌, if◌then◌else◌, List, map, bit_xor, u8}
use ni_fat.Base.{get_bit, set_bit, toggle_bit}

infixl 55 ◌⊕◌
abbrev ◌⊕◌ : ℕ → ℕ → ℕ
a ⊕ b = bit_xor a b

-- the eleven data bits at their places, the parity bits 0
spread : ℕ → ℕ
spread x =
    let e = set_bit 0 2 (get_bit x 0) in
    let e = set_bit e 4 (get_bit x 1) in
    let e = set_bit e 5 (get_bit x 2) in
    let e = set_bit e 6 (get_bit x 3) in
    let e = set_bit e 8 (get_bit x 4) in
    let e = set_bit e 9 (get_bit x 5) in
    let e = set_bit e 10 (get_bit x 6) in
    let e = set_bit e 11 (get_bit x 7) in
    let e = set_bit e 12 (get_bit x 8) in
    let e = set_bit e 13 (get_bit x 9) in set_bit e 14 (get_bit x 10)

parity_1 : ℕ → ℕ
parity_1 e =
    get_bit e 2
    ⊕ get_bit e 4
    ⊕ get_bit e 6
    ⊕ get_bit e 8
    ⊕ get_bit e 10
    ⊕ get_bit e 12
    ⊕ get_bit e 14

parity_2 : ℕ → ℕ
parity_2 e =
    get_bit e 2
    ⊕ get_bit e 5
    ⊕ get_bit e 6
    ⊕ get_bit e 9
    ⊕ get_bit e 10
    ⊕ get_bit e 13
    ⊕ get_bit e 14

parity_4 : ℕ → ℕ
parity_4 e =
    get_bit e 4
    ⊕ get_bit e 5
    ⊕ get_bit e 6
    ⊕ get_bit e 11
    ⊕ get_bit e 12
    ⊕ get_bit e 13
    ⊕ get_bit e 14

parity_8 : ℕ → ℕ
parity_8 e =
    get_bit e 8
    ⊕ get_bit e 9
    ⊕ get_bit e 10
    ⊕ get_bit e 11
    ⊕ get_bit e 12
    ⊕ get_bit e 13
    ⊕ get_bit e 14

unfoldable pub encode : ℕ → ℕ
unfolding spread parity_1 parity_2 parity_4 parity_8
encode x =
    let e = spread x in
    let p1 = parity_1 e in
    let p2 = parity_2 e in
    let p4 = parity_4 e in
    let p8 = parity_8 e in set_bit (set_bit (set_bit (set_bit e 0 p1) 1 p2) 3 p4) 7 p8

-- `error_pos`: the parity sums with the stored parity bits, read as a binary number
error_pos : ℕ → ℕ
unfolding parity_1 parity_2 parity_4 parity_8
error_pos e =
    (get_bit e 0 ⊕ parity_1 e)
    + (get_bit e 1 ⊕ parity_2 e) * 2
    + (get_bit e 3 ⊕ parity_4 e) * 4
    + (get_bit e 7 ⊕ parity_8 e) * 8

gather : ℕ → ℕ
gather e =
    let x = set_bit 0 0 (get_bit e 2) in
    let x = set_bit x 1 (get_bit e 4) in
    let x = set_bit x 2 (get_bit e 5) in
    let x = set_bit x 3 (get_bit e 6) in
    let x = set_bit x 4 (get_bit e 8) in
    let x = set_bit x 5 (get_bit e 9) in
    let x = set_bit x 6 (get_bit e 10) in
    let x = set_bit x 7 (get_bit e 11) in
    let x = set_bit x 8 (get_bit e 12) in
    let x = set_bit x 9 (get_bit e 13) in set_bit x 10 (get_bit e 14)

unfoldable pub decode : ℕ → ℕ
unfolding error_pos gather
decode e = let pos = error_pos e in gather (if pos == 0 then e else toggle_bit e (pos - 1))

-- `_get_byte` and `_set_byte`
unfoldable pub get_byte : ℕ → ℕ
unfolding decode
get_byte e = u8 (decode e)

unfoldable pub set_byte : ℕ → ℕ
unfolding encode
set_byte b = encode b

-- The buffers are the lists of their `l` elements.
unfoldable pub unpack_memory : List ℕ → List ℕ
unpack_memory src = map get_byte src

unfoldable pub pack_memory : List ℕ → List ℕ
pack_memory src = map set_byte src
