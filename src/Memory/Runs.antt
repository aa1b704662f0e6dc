-- ===== src/Memory/Runs.antt =====
-- Sequences of calls of the manager, from the state before `nft32_mm_init`.
use ni_fat.Base.{ℕ, inl, List, [], ◌∷◌, refl}
use ni_fat.Memory.{Heap, empty_heap, buffer_size, mm_init, malloc_s, free_s}
use ni_fat.Memory.Tiling.{IsTiled}
use ni_fat.Memory.Areas.{used, total, IsApart, used-IsApart, IsApart-later}
use ni_fat.Memory.Invariant.{IsHeap, mm_init-IsHeap, malloc_s-IsHeap, free_s-IsHeap, stop_below}

pub data Action : Type 0 where
  init : Action
  malloc : ℕ → Action
  free : ℕ → Action

unfoldable pub perform : Action → Heap → Heap
perform init h = mm_init h
perform (malloc size) h = (malloc_s size h).1
perform (free ptr) h = free_s ptr h

unfoldable pub run : List Action → Heap → Heap
run [] h = h
run (a ∷ actions) h = run actions (perform a h)

perform-IsHeap : (a : Action) (h : Heap) → IsHeap h → IsHeap (perform a h)
unfolding perform
perform-IsHeap init h heap = mm_init-IsHeap h heap
perform-IsHeap (malloc size) h heap = malloc_s-IsHeap size h heap
perform-IsHeap (free ptr) h heap = free_s-IsHeap ptr h heap

run_keeps : (actions : List Action) (h : Heap) → IsHeap h → IsHeap (run actions h)
unfolding run
run_keeps [] h heap = heap
run_keeps (a ∷ actions) h heap = run_keeps actions (perform a h) (perform-IsHeap a h heap)

-- Whatever is called in whatever order, sizes and pointers included, the chain is empty or covers the
-- buffer without a gap, and `_allocated` counts the areas in use with their headers.
pub run-IsHeap : (actions : List Action) → IsHeap (run actions empty_heap)
run-IsHeap actions = run_keeps actions empty_heap (record {
  stop = 0;
  covered = inl refl;
  tiled = unfold IsTiled in refl;
  counted = unfold used in unfold total in refl;
})

-- After any calls in any order, the areas that are handed out overlap neither each other nor a
-- header, and lie inside the buffer.
pub run-IsApart :
    (actions : List Action) → IsApart 0 (used (run actions empty_heap).blocks) buffer_size
run-IsApart actions =
    let h = run-IsHeap actions in
    IsApart-later 0 h.stop buffer_size _ (stop_below h.stop h.covered)
      (used-IsApart 0 h.stop _ h.tiled)
