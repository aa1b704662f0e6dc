-- ===== src/Tests/Allocation.antt =====
-- The memory manager at concrete requests.
use ni_fat.Base.{◌≡◌, refl, inr, arith, List, [], ◌∷◌, true, false}
use ni_fat.Memory.{
  Block, Heap, empty_heap, buffer_size, malloc_s, free_s, align, found, malloc_round, retry,
  take_block, place, split_block, serves, take_malloc_lock, drop_malloc_lock,
}
use ni_fat.Threading.{require_write, attempts, try_write, release_write, try_release_write}
use ni_fat.Memory.Tiling.{IsTiled}
use ni_fat.Memory.Areas.{used, total, IsApart}
use ni_fat.Memory.Invariant.{IsStore, IsHeap}
use ni_fat.Memory.Runs.{Action, init, malloc, free, run, run-IsHeap, run-IsApart}
use ni_fat.Memory.Contract.{at_rest, MallocResult, malloc_s-fulfils}
use ni_fat.Memory.Release.{free_s-malloc_s}

abbrev session : List Action
session = init ∷ malloc 100 ∷ malloc 20 ∷ free 24 ∷ malloc 50 ∷ []

run-IsHeap_example : IsHeap (run session empty_heap)
run-IsHeap_example = run-IsHeap session

run-IsApart_example : IsApart 0 (used (run session empty_heap).blocks) buffer_size
run-IsApart_example = run-IsApart session

abbrev three_free : List Block
three_free =
    record { at = 0; size = 8; free = true }
    ∷ record { at = 32; size = 16; free = true }
    ∷ record { at = 72; size = 8; free = true }
    ∷ []

abbrev whole : List Block
whole = record { at = 0; size = 511976; free = true } ∷ []

malloc_s-fulfils_example : MallocResult (align 100) whole (malloc_s 100 (at_rest whole 0))
malloc_s-fulfils_example = malloc_s-fulfils 100 whole 0 (omega arith) (omega arith)

whole-IsStore : IsStore whole 0
whole-IsStore = record {
  stop = buffer_size;
  covered = inr refl;
  tiled = unfold IsTiled in (refl, refl);
  counted = unfold used in unfold total in refl;
}

-- 100 bytes are rounded up to 104
abbrev after : Heap
after = record {
  blocks =
      record { at = 0; size = 104; free = false }
      ∷ record { at = 128; size = 511848; free = true }
      ∷ [];
  allocated = 128;
  lock = 16711680;
}

malloc_s_run : malloc_s 100 (at_rest whole 0) ≡ (found 24, after)
unfolding malloc_s retry malloc_round take_malloc_lock require_write attempts try_write
    drop_malloc_lock release_write try_release_write take_block place split_block serves align
malloc_s_run = refl

free_s-malloc_s_example : used (free_s 24 after).blocks ≡ used whole
free_s-malloc_s_example =
    free_s-malloc_s 100 24 0 whole after whole-IsStore (omega arith) (omega arith) malloc_s_run
