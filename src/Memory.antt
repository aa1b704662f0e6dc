-- ===== src/Memory.antt =====
-- std/mm.c, the built-in memory manager: blocks in the buffer `_buffer`, each a header of 24 bytes
-- (`mm_block_t` with 64-bit pointers) in front of the bytes that are handed out. An address is its
-- distance from the start of the buffer. A pointer that is freed and in front of which no block of
-- the chain starts is one whose header shows no block in use.
pub mod Merge
pub mod Search
pub mod Tiling
pub mod Areas
pub mod Invariant
pub mod Runs
pub mod Contract
pub mod Release
use ni_fat.Base.{
  ℕ, zero, suc, ◌+◌, ◌-◌, ◌*◌, ◌/◌, ◌%◌, ◌^◌, ◌==◌, leb, ltb, if◌then◌else◌, Bool, true, false, not,
  ◌&&◌, u32, List, [], ◌∷◌, ◌++◌, Option, none, some,
}
use ni_fat.Threading.{null_lock, quiet, require_write, release_write, thread_num}

-- ALLOC_BUFFER_SIZE
abbrev pub buffer_size : ℕ
buffer_size = 512000

-- sizeof(mm_block_t)
abbrev pub header : ℕ
header = 24

-- `mm_block_t` and where it stands; `next` is the chain it is in.
pub record Block : Type 0 where
  pub at : ℕ
  pub size : ℕ
  pub free : Bool

-- The chain from `_mm_head`, `[]` as long as the head has no magic; `_allocated`; `_malloc_lock`.
pub record Heap : Type 0 where
  pub blocks : List Block
  pub allocated : ℕ
  pub lock : ℕ

abbrev pub empty_heap : Heap
empty_heap = record { blocks = []; allocated = 0; lock = null_lock }

-- `_mm_init`
unfoldable pub mm_init : Heap → Heap
mm_init h = elim (h.blocks) [
  | [] ↦ record h { blocks = record { at = 0; size = buffer_size - header; free = true } ∷ [] }
  | ◌∷◌ b bs ↦ h
]

-- The inner loop of `__coalesce_memory` from `current` on, and whether it merged.
unfoldable pub merge_pass : Block → List Block → Bool × List Block
merge_pass current [] = (false, current ∷ [])
merge_pass current (next ∷ rest) =
    let merged =
      merge_pass (record current { size = u32 (current.size + (header + next.size)) }) rest in
    let kept = merge_pass next rest in
    if current.free && next.free then (true, merged.1) else (kept.0, current ∷ kept.1)

-- `__coalesce_memory`, with at most `fuel` passes
unfoldable pub coalesce_memory : ℕ → List Block → List Block
coalesce_memory zero blocks = blocks
coalesce_memory (suc fuel) [] = []
coalesce_memory (suc fuel) (b ∷ bs) =
    let pass = merge_pass b bs in
    let again = coalesce_memory fuel pass.1 in if pass.0 then again else pass.1

-- rounding up to ALIGNMENT, in 64 bits
unfoldable pub align : ℕ → ℕ
align n = (n + 7) % 2 ^ 64 / 8 * 8

-- whether a block serves, and what becomes of it
unfoldable pub serves : ℕ → ℕ → Block → Bool
serves size offset b = b.free && (leb size b.size && leb offset (b.at + header))

unfoldable pub split_block : ℕ → Block → Block × List Block
split_block size b =
    if leb (size + header) b.size
    then (
      record { at = b.at; size = size; free = false },
      record { at = b.at + (header + size); size = b.size - size - header; free = true } ∷ [],
    )
    else (record b { free = false }, [])

-- The search of `__malloc_s`: the block that it hands out, and the chain afterwards.
unfoldable pub place : ℕ → ℕ → List Block → Option (Block × List Block)
place size offset [] = none
place size offset (b ∷ bs) =
    let cut = split_block size b in
    let later = place size offset bs in
    if serves size offset b
    then some (cut.0, cut.0 ∷ (cut.1 ++ bs))
    else elim later [ none ↦ none | some p ↦ some (p.0, b ∷ p.1) ]

unfoldable pub take_malloc_lock : Heap → Bool × Heap
take_malloc_lock h =
    let got = require_write quiet h.lock thread_num in (got.taken, record h { lock = got.word })

unfoldable pub drop_malloc_lock : Heap → Heap
drop_malloc_lock h = record h { lock = (release_write 1 quiet h.lock thread_num).word }

-- NULL at once, NULL for want of a block, or an address
pub data Answer : Type 0 where
  refused : Answer
  missing : Answer
  found : ℕ → Answer

-- what `__malloc_s` does with the lock held
unfoldable pub take_block : ℕ → ℕ → Heap → Answer × Heap
take_block size offset h = elim (place size offset h.blocks) [
  | none ↦ (missing, h)
  | some p ↦ (
    found (p.0.at + header),
    record h { blocks = p.1; allocated = u32 (h.allocated + (p.0.size + header)) },
  )
]

-- the offset is an `unsigned int`
unfoldable pub malloc_round : ℕ → ℕ → Bool → Heap → Answer × Heap
malloc_round size offset prepare_mem h =
    let (held, h1) = take_malloc_lock h in
    let blocks = if prepare_mem then coalesce_memory 2 h1.blocks else h1.blocks in
    let (answer, h2) =
      take_block (align size) (u32 (align offset)) (record h1 { blocks = blocks }) in
    if size == 0
    then (refused, h)
    else if held
    then (answer, drop_malloc_lock h2)
    else (refused, h1)

-- the call of `__malloc_s` in itself, after a first answer
unfoldable pub retry : ℕ → Answer × Heap → Answer × Heap
retry size (missing, h) = malloc_round (align size) 0 true h
retry size (refused, h) = (refused, h)
retry size (found ptr, h) = (found ptr, h)

-- `_malloc_s`
unfoldable pub malloc_s : ℕ → Heap → Answer × Heap
malloc_s size h = retry size (malloc_round size 0 false h)

-- The block whose bytes start at `ptr`, if it is in use: its size, and the chain where it is free.
unfoldable pub release : ℕ → List Block → Option (ℕ × List Block)
release ptr [] = none
release ptr (b ∷ bs) =
    let later = release ptr bs in
    if b.at + header == ptr
    then (if b.free then none else some (b.size, record b { free = true } ∷ bs))
    else elim later [ none ↦ none | some p ↦ some (p.0, b ∷ p.1) ]

-- `_free_s`; `_allocated` is 32 bits wide.
unfoldable pub free_s : ℕ → Heap → Heap
free_s ptr h =
    let (held, h1) = take_malloc_lock h in
    if not (ltb ptr buffer_size)
    then h
    else if not held
    then h1
    else drop_malloc_lock (elim (release ptr h1.blocks) [
      | none ↦ h1
      | some p ↦ record h1 {
        blocks = p.1;
        allocated = u32 (h1.allocated + (2 ^ 32 - (p.0 + header)));
      }
    ])

-- `mm_manager_t`: functions over a state `H` of their own. A pointer is an address, NULL `none`.
pub record Manager (H : Type 0) : Type 0 where
  pub init : Option (H → ℕ × H)
  pub malloc : Option (ℕ → H → Option ℕ × H)
  pub free : Option (Option ℕ → H → H)

unfoldable pub pointer : Answer → Option ℕ
pointer refused = none
pointer missing = none
pointer (found ptr) = some ptr

-- the built-in functions
unfoldable pub built_in : Manager Heap
built_in = record {
  init = some (λ h. (1, mm_init h));
  malloc = some (λ size h. let r = malloc_s size h in (pointer r.0, r.1));
  free = some (λ ptr h. elim ptr [ none ↦ h | some p ↦ free_s p h ]);
}

unfoldable pub first_given {ℓ} : {A : Type ℓ} → Option A → Option A → Option A
first_given none b = b
first_given (some a) b = some a

-- `nft32_setup_mm_manager`, where the functions that are given work on the state of the built-in ones
unfoldable pub setup_mm_manager : Manager Heap → Manager Heap
setup_mm_manager given = record {
  init = first_given given.init built_in.init;
  malloc = first_given given.malloc built_in.malloc;
  free = first_given given.free built_in.free;
}

-- `nft32_mm_init`, `nft32_malloc_s` and `nft32_free_s`
unfoldable pub call_init : {H : Type 0} → Manager H → H → ℕ × H
call_init m h = elim (m.init) [ none ↦ (1, h) | some f ↦ f h ]

unfoldable pub call_malloc : {H : Type 0} → Manager H → ℕ → H → Option ℕ × H
call_malloc m size h = elim (m.malloc) [ none ↦ (none, h) | some f ↦ f size h ]

unfoldable pub call_free : {H : Type 0} → Manager H → Option ℕ → H → H
call_free m ptr h = elim (m.free) [ none ↦ h | some f ↦ f ptr h ]
