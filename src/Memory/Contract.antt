-- ===== src/Memory/Contract.antt =====
-- What the manager promises its callers, in terms of the areas in use.
use ni_fat.Base.{
  ℕ, ◌+◌, ◌^◌, ◌≤◌, ◌<◌, ◌≡◌, ◌≢◌, refl, sym, subst, ◌∙◌, arith, Bool, true, false, List, ◌∷◌, ◌++◌,
  u32, if◌then◌else◌, Option, some, none, All, ne→==,
}
use ni_fat.Threading.{
  null_lock, thread_num, lock_pack, require_write, release_write, attempts, try_write,
  try_release_write,
}
use ni_fat.Memory.{
  Block, Heap, header, coalesce_memory, serves, place, align, take_malloc_lock, drop_malloc_lock,
  Answer, refused, missing, found, take_block, malloc_round, retry, malloc_s,
}
use ni_fat.Memory.Search.{PlaceResult, place_found}
use ni_fat.Memory.Areas.{used, coalesce_memory-used}
use ni_fat.Memory.Invariant.{Placed-used}

-- between two calls of a single thread
abbrev pub at_rest : List Block → ℕ → Heap
at_rest blocks allocated = record { blocks = blocks; allocated = allocated; lock = null_lock }

-- an area more, of `size` bytes at least
abbrev pub Handed : ℕ → List Block → ℕ → List Block → Type 0
Handed size blocks ptr later =
    (n : ℕ) × (xs : List (ℕ × ℕ)) × (ys : List (ℕ × ℕ)) × (size ≤ n)
    × (used blocks ≡ xs ++ ys)
    × (used later ≡ xs ++ ((ptr, n) ∷ ys))

-- `malloc_s` hands out an area, or finds every free block too small after merging.
unfoldable pub MallocResult : ℕ → List Block → Answer × Heap → Type 0
MallocResult size blocks (found ptr, h) = Handed size blocks ptr h.blocks × (h.lock ≡ null_lock)
MallocResult size blocks (missing, h) =
    (h.blocks ≡ coalesce_memory 2 blocks)
    × All (λ b. serves size 0 b ≡ false) (coalesce_memory 2 blocks)
    × (h.lock ≡ null_lock)
MallocResult size blocks (refused, h) = ⊥

TakeResult : ℕ → List Block → ℕ → Answer × Heap → Type 0
TakeResult size blocks lock (found ptr, h) = Handed size blocks ptr h.blocks × (h.lock ≡ lock)
TakeResult size blocks lock (missing, h) =
    (h.blocks ≡ blocks) × All (λ b. serves size 0 b ≡ false) blocks × (h.lock ≡ lock)
TakeResult size blocks lock (refused, h) = ⊥

taken :
    (size : ℕ) (h : Heap) (o : Option (Block × List Block))
    → PlaceResult size 0 h.blocks o
    → TakeResult size h.blocks h.lock (elim o as (λ x. Answer × Heap) [
      | none ↦ (missing, h)
      | some p ↦ (
        found (p.0.at + header),
        record h { blocks = p.1; allocated = u32 (h.allocated + (p.0.size + header)) },
      )
    ])
unfolding TakeResult
taken size h none r = (refl, r, refl)
taken size h (some p) r =
    let areas = Placed-used size 0 h.blocks p r in
    ((p.0.size, used r.0.front, used r.0.back, areas.2, areas.0, areas.1), refl)

take_block-TakeResult :
    (size : ℕ) (h : Heap) → TakeResult size h.blocks h.lock (take_block size 0 h)
unfolding take_block
take_block-TakeResult size h = taken size h (place size 0 h.blocks) (place_found size 0 h.blocks)

abbrev busy : ℕ
busy = lock_pack 0 true thread_num

give_back : (h : Heap) → h.lock ≡ busy → (drop_malloc_lock h).lock ≡ null_lock
unfolding drop_malloc_lock release_write attempts try_release_write
give_back h e = rw e refl

dropped :
    (size : ℕ) (blocks : List Block) (answer : Answer) (h : Heap)
    → TakeResult size blocks busy (answer, h)
    → TakeResult size blocks null_lock (answer, drop_malloc_lock h)
unfolding TakeResult drop_malloc_lock
dropped size blocks (found ptr) h r = (r.0, give_back h r.1)
dropped size blocks missing h r = (r.0, r.1, give_back h r.2)
dropped size blocks refused h r = r

-- `__malloc_s` by a thread that gets the lock
round_result :
    (size : ℕ) (prepare_mem : Bool) (blocks : List Block) (allocated : ℕ)
    → size ≢ 0
    → TakeResult
        (align size)
        (if prepare_mem then coalesce_memory 2 blocks else blocks)
        null_lock
        (malloc_round size 0 prepare_mem (at_rest blocks allocated))
unfolding malloc_round take_malloc_lock require_write attempts try_write align
round_result size prepare_mem blocks allocated some_size =
    let start = if prepare_mem then coalesce_memory 2 blocks else blocks in
    let r =
      take_block (align size) 0 (record { blocks = start; allocated = allocated; lock = busy }) in
    rw (ne→== some_size) (
      dropped (align size) start r.0 r.1 (
        take_block-TakeResult (align size)
          (record { blocks = start; allocated = allocated; lock = busy })))

align_twice : (size : ℕ) → size + 7 < 2 ^ 64 → align (align size) ≡ align size
unfolding align
align_twice size h = omega arith

pub align_room : (size : ℕ) → size + 7 < 2 ^ 64 → size ≤ align size
unfolding align
align_room size h = omega arith

-- the second round, from the state that the first one leaves
second_round :
    (size : ℕ) (h : Heap)
    → size + 7 < 2 ^ 64
    → 0 < size
    → h.lock ≡ null_lock
    → TakeResult
        (align size)
        (coalesce_memory 2 h.blocks)
        null_lock
        (malloc_round (align size) 0 true h)
second_round size h small some_size idle =
    let same : at_rest h.blocks h.allocated ≡ h =
      λ i. record { blocks = h.blocks; allocated = h.allocated; lock = sym idle i } in
    let r =
      round_result (align size) true h.blocks h.allocated
        (λ e. absurd (omega (arith, align_room size small, e))) in
    subst
      (λ (g : Heap).
        TakeResult (align size) (coalesce_memory 2 h.blocks) null_lock
          (malloc_round (align size) 0 true g))
      same
      (subst
        (λ (n : ℕ).
          TakeResult n (coalesce_memory 2 h.blocks) null_lock
            (malloc_round (align size) 0 true (at_rest h.blocks h.allocated)))
        (align_twice size small) r)

handed_merged :
    (size : ℕ) (blocks : List Block) (r : Answer × Heap)
    → TakeResult size (coalesce_memory 2 blocks) null_lock r
    → MallocResult size blocks r
unfolding TakeResult MallocResult
handed_merged size blocks (found ptr, h) ((n, xs, ys, room, before, after), idle) =
    ((n, xs, ys, room, sym (coalesce_memory-used 2 blocks) ∙ before, after), idle)
handed_merged size blocks (missing, h) r = r
handed_merged size blocks (refused, h) r = r

retried :
    (size : ℕ) (blocks : List Block) (answer : Answer) (h : Heap)
    → size + 7 < 2 ^ 64
    → 0 < size
    → TakeResult (align size) blocks null_lock (answer, h)
    → MallocResult (align size) blocks (retry size (answer, h))
unfolding TakeResult MallocResult retry
retried size blocks (found ptr) h small some_size r = r
retried size blocks missing h small some_size r =
    subst (λ (bs : List Block). MallocResult (align size) bs (malloc_round (align size) 0 true h))
      r.0
      (handed_merged (align size) h.blocks (malloc_round (align size) 0 true h)
        (second_round size h small some_size r.2))
retried size blocks refused h small some_size r = absurd r

-- A request of one byte or more, which rounding up does not take beyond 64 bits, either gets an area
-- of its size, rounded up, with all other areas kept, or finds, with all free blocks merged, that none
-- of them is large enough; the lock is free again.
pub malloc_s-fulfils :
    (size : ℕ) (blocks : List Block) (allocated : ℕ)
    → size + 7 < 2 ^ 64
    → 0 < size
    → MallocResult (align size) blocks (malloc_s size (at_rest blocks allocated))
unfolding malloc_s
malloc_s-fulfils size blocks allocated small some_size =
    let first = malloc_round size 0 false (at_rest blocks allocated) in
    retried size blocks first.0 first.1 small some_size
      (round_result size false blocks allocated (λ e. absurd (omega (arith, e))))
