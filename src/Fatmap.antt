-- ===== src/Fatmap.antt =====
-- src/fatmap.c: the bitmap with a bit for each cluster, clear where the cluster is free.
pub mod Marks
pub mod Search
use ni_fat.Base.{
  ℕ, zero, suc, ◌+◌, ◌-◌, ◌*◌, ◌/◌, ◌%◌, ◌^◌, ◌==◌, ltb, leb, if◌then◌else◌, Bool, true, false,
}
use ni_fat.Base.{
  not, ◌&&◌, ◌||◌, List, get_or, set, replicate, Option, none, some, get_bit, bit_and, bit_or,
}
use ni_fat.Threading.{require_write, release_write, quiet, thread_num}
use ni_fat.State.{FatData, Guard, Core, State, Driver}
use ni_fat.Errors.{register_error}

-- `_bitmap[ca / 32] &= ~(1U << (ca % 32))` and `_bitmap[ca / 32] |= 1U << (ca % 32)`. The callers
-- keep `ca` below `total_clusters`; a write beyond the array is none here.
unfoldable pub clear_mark : ℕ → List ℕ → List ℕ
clear_mark ca bitmap =
    set bitmap (ca / 32) (bit_and (get_or bitmap (ca / 32) 0) (0xffffffff - 2 ^ (ca % 32)))

unfoldable pub set_mark : ℕ → List ℕ → List ℕ
set_mark ca bitmap = set bitmap (ca / 32) (bit_or (get_or bitmap (ca / 32) 0) (2 ^ (ca % 32)))

-- `(_bitmap[i / 32] >> (i % 32)) & 1U`
unfoldable pub mark : List ℕ → ℕ → ℕ
mark bitmap i = get_bit (get_or bitmap (i / 32) 0) (i % 32)

-- taking and giving back `_fatmap_lock`
unfoldable pub take_fatmap_lock : {S : Type 0} → State S → Bool × State S
take_fatmap_lock s =
    let g = s.guard in
    let got = require_write quiet g.fatmap_lock thread_num in
    (got.taken, record s { guard = record g { fatmap_lock = got.word } })

unfoldable pub drop_fatmap_lock : {S : Type 0} → State S → State S
drop_fatmap_lock s =
    let g = s.guard in
    let freed = (release_write 1 quiet g.fatmap_lock thread_num).word in
    record s { guard = record g { fatmap_lock = freed } }

unfoldable pub set_bitmap : {S : Type 0} → Option (List ℕ) → State S → State S
set_bitmap b s = let c = s.core in record s { core = record c { bitmap = b } }

abbrev pub malloc_error : ℕ
malloc_error = 3

-- `fatmap_init`; `granted` is whether `nft32_malloc_s` finds room.
unfoldable pub init : {S : Type 0} → Driver S → FatData → Bool → State S → Bool × State S
init d fi granted s =
    let (held, s1) = take_fatmap_lock s in
    let fresh = replicate ((fi.total_clusters + 31) / 32) 0 in
    let failed = (register_error d fi malloc_error (drop_fatmap_lock s1)).1 in
    elim s.core.bitmap [
      | some b ↦ (true, s)
      | none ↦
          if not held
          then (false, s1)
          else if granted
          then (true, drop_fatmap_lock (set_bitmap (some fresh) s1))
          else (false, failed)
    ]

-- the body of the functions that change the bitmap under its lock
unfoldable pub change : {S : Type 0} → (List ℕ → Option (List ℕ)) → State S → Bool × State S
change f s =
    let (held, s1) = take_fatmap_lock s in
    elim s.core.bitmap [
      | none ↦ (false, s)
      | some b ↦ if held then (true, drop_fatmap_lock (set_bitmap (f b) s1)) else (false, s1)
    ]

-- `fatmap_set` marks a cluster as free, `fatmap_unset` as occupied.
unfoldable pub fatmap_set : {S : Type 0} → ℕ → State S → Bool × State S
fatmap_set ca = change (λ b. some (clear_mark ca b))

unfoldable pub fatmap_unset : {S : Type 0} → ℕ → State S → Bool × State S
fatmap_unset ca = change (λ b. some (set_mark ca b))

unfoldable pub unload : {S : Type 0} → State S → Bool × State S
unload = change (λ b. none)

-- The loop over `j`, with `n` bits left from bit `i` on: the first bit that is set.
unfoldable pub first_mark : List ℕ → ℕ → ℕ → Option ℕ
first_mark bitmap zero i = none
first_mark bitmap (suc n) i =
    let rest = first_mark bitmap n (i + 1) in if mark bitmap i == 1 then some i else rest

-- The loop over `i`, which a set bit moves behind itself. 0 stands for no range.
unfoldable pub search_from : List ℕ → ℕ → ℕ → ℕ → ℕ → ℕ
search_from bitmap size limit zero i = 0
search_from bitmap size limit (suc fuel) i =
    if leb i limit
    then elim (first_mark bitmap size i) [
      | none ↦ i
      | some bit ↦ search_from bitmap size limit fuel (bit + 1)
    ]
    else 0

-- `fatmap_find_free`; the rounds are at most those from `offset` to `limit`.
unfoldable pub find_free_in : List ℕ → ℕ → ℕ → ℕ → ℕ
find_free_in bitmap offset size total =
    if size == 0 || (leb total offset || ltb (total - offset) size)
    then 0
    else search_from bitmap size (total - size) (total - size + 1 - offset) offset

unfoldable pub find_free : {S : Type 0} → ℕ → ℕ → FatData → State S → ℕ × State S
find_free offset size fi s =
    let (held, s1) = take_fatmap_lock s in
    elim s.core.bitmap [
      | none ↦ (0, s)
      | some b ↦
          if held
          then (find_free_in b offset size fi.total_clusters, drop_fatmap_lock s1)
          else (0, s1)
    ]
