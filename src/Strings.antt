-- ===== src/Strings.antt =====
-- std/str.c: memory and C strings. A buffer is the list of its bytes; a string is the list of the
-- bytes in front of its terminator, none of which is 0. What lies behind a list reads as 0.
pub mod Laws
use ni_fat.Base.{
  ℕ, zero, suc, ◌+◌, ◌-◌, ◌*◌, ◌/◌, ◌%◌, ◌==◌, leb, if◌then◌else◌, Bool, ◌&&◌, ◌||◌, not,
}
use ni_fat.Base.{List, [], ◌∷◌, ◌++◌, length, get_or, drop, bit_or}
use ni_fat.Hamming.Buffer.{le32}

-- the second loop of `nft32_str_memcpy`, with `n` bytes left
unfoldable pub copy_bytes : ℕ → List ℕ → List ℕ → List ℕ
copy_bytes zero dst src = dst
copy_bytes (suc n) dst src = get_or src 0 0 ∷ copy_bytes n (drop 1 dst) (drop 1 src)

-- the first loop, which copies four bytes at once, with `n` of them left
unfoldable pub copy_words : ℕ → ℕ → List ℕ → List ℕ → List ℕ
copy_words zero rest dst src = copy_bytes rest dst src
copy_words (suc n) rest dst src =
    get_or src 0 0
    ∷ (get_or src 1 0
        ∷ (get_or src 2 0 ∷ (get_or src 3 0 ∷ copy_words n rest (drop 4 dst) (drop 4 src))))

-- `nft32_str_memcpy`: the destination after it
unfoldable pub memcpy : List ℕ → List ℕ → ℕ → List ℕ
memcpy dst src num = copy_words (num / 4) (num % 4) dst src

-- `val32`
unfoldable pub four_times : ℕ → ℕ
four_times value =
    bit_or (bit_or (bit_or value (value * 0x100)) (value * 0x10000)) (value * 0x1000000)

unfoldable pub fill_bytes : ℕ → ℕ → List ℕ → List ℕ
fill_bytes value zero dst = dst
fill_bytes value (suc n) dst = value ∷ fill_bytes value n (drop 1 dst)

unfoldable pub fill_words : ℕ → ℕ → ℕ → List ℕ → List ℕ
fill_words value zero rest dst = fill_bytes value rest dst
fill_words value (suc n) rest dst = le32 (four_times value) ++ fill_words value n rest (drop 4 dst)

-- `nft32_str_memset`
unfoldable pub memset : List ℕ → ℕ → ℕ → List ℕ
memset dst value num = fill_words value (num / 4) (num % 4) dst

-- an `int` that is the difference of two bytes
pub data ℤ : Type 0 where
  pos : ℕ → ℤ
  negsuc : ℕ → ℤ

unfoldable pub difference : ℕ → ℕ → ℤ
difference a b = if leb b a then pos (a - b) else negsuc (b - a - 1)

-- `nft32_str_memcmp`
unfoldable pub memcmp : List ℕ → List ℕ → ℕ → ℤ
memcmp xs ys zero = pos 0
memcmp xs ys (suc n) =
    let a = get_or xs 0 0 in
    let b = get_or ys 0 0 in
    let rest = memcmp (drop 1 xs) (drop 1 ys) n in if a == b then rest else difference a b

-- `nft32_str_strncpy` of a string
unfoldable pub strncpy : List ℕ → List ℕ → ℕ → List ℕ
strncpy dst src zero = dst
strncpy dst [] (suc n) = 0 ∷ strncpy (drop 1 dst) [] n
strncpy dst (c ∷ cs) (suc n) = c ∷ strncpy (drop 1 dst) cs n

-- `nft32_str_strncmp`
unfoldable pub strncmp : List ℕ → List ℕ → ℕ → ℤ
strncmp xs ys zero = pos 0
strncmp xs ys (suc n) =
    let a = get_or xs 0 0 in
    let b = get_or ys 0 0 in
    let rest = strncmp (drop 1 xs) (drop 1 ys) n in
    if not (a == b) || (a == 0 || b == 0) then difference a b else rest

-- `nft32_str_strlen` of what a buffer holds
unfoldable pub strlen : List ℕ → ℕ
strlen [] = 0
strlen (c ∷ cs) = let n = strlen cs in if c == 0 then 0 else suc n

-- `nft32_str_strcpy` of a string; an empty one is not copied.
unfoldable pub strcpy : List ℕ → List ℕ → List ℕ
strcpy dst [] = dst
strcpy dst (c ∷ cs) = (c ∷ cs) ++ (0 ∷ drop (length cs + 2) dst)

-- `_toupper`
unfoldable pub to_upper : ℕ → ℕ
to_upper c = if leb 97 c && leb c 122 then c - 97 + 65 else c

-- `nft32_str_uppercase` of what a buffer holds
unfoldable pub uppercase : List ℕ → List ℕ
uppercase [] = []
uppercase (c ∷ cs) = let rest = uppercase cs in if c == 0 then c ∷ cs else to_upper c ∷ rest
