-- ===== src/Memory/Invariant.antt =====
-- Every state that calls of the manager lead to is well formed.
use ni_fat.Base.{
  ℕ, ◌+◌, ◌-◌, ◌^◌, ◌≤◌, ◌≡◌, ◌⊎◌, refl, sym, ap, ap₂, subst, ◌∙◌, arith, Bool, true, false, inl,
  inr, List, [], ◌∷◌, ◌++◌, u32, ◌==◌, ltb, not, if◌then◌else◌, pick, Option, some, none,
}
use ni_fat.Memory.{
  Block, Heap, buffer_size, header, mm_init, coalesce_memory, split_block, place, release, align,
  take_malloc_lock, drop_malloc_lock, Answer, refused, missing, found, take_block, malloc_round,
  retry, malloc_s, free_s,
}
use ni_fat.Memory.Merge.{coalesce_memory-keeps}
use ni_fat.Memory.Search.{Placed, Released, PlaceResult, place_found, ReleaseResult, release_found}
use ni_fat.Memory.Tiling.{IsTiled, merge_pass-IsTiled, place-IsTiled, release-IsTiled, serves_fits}
use ni_fat.Memory.Areas.{
  used, total, used-append, used-free, used-taken, total-append, coalesce_memory-used, split_taken,
  total-used-le, serves_free,
}

-- The chain is empty or covers the buffer, and `_allocated` counts what the areas in use take.
pub record IsStore (blocks : List Block) (allocated : ℕ) : Type 0 where
  pub stop : ℕ
  pub covered : (stop ≡ 0) ⊎ (stop ≡ buffer_size)
  pub tiled : IsTiled 0 blocks stop
  pub counted : allocated ≡ total (used blocks)

abbrev pub IsHeap : Heap → Type 0
IsHeap h = IsStore h.blocks h.allocated

pub stop_below : (stop : ℕ) → (stop ≡ 0) ⊎ (stop ≡ buffer_size) → stop ≤ buffer_size
stop_below stop h = elim h [ inl e ↦ omega (arith, e) | inr e ↦ omega (arith, e) ]

mm_init-IsStore :
    (blocks : List Block) (allocated lock : ℕ)
    → IsStore blocks allocated
    → IsHeap (mm_init (record { blocks = blocks; allocated = allocated; lock = lock }))
mm_init-IsStore [] allocated lock heap =
    unfold mm_init in
    record {
      stop = buffer_size;
      covered = inr refl;
      tiled = unfold IsTiled in (refl, refl);
      counted = heap.counted ∙ (unfold used in refl);
    }
mm_init-IsStore (b ∷ bs) allocated lock heap = unfold mm_init in heap

pub mm_init-IsHeap : (h : Heap) → IsHeap h → IsHeap (mm_init h)
mm_init-IsHeap h heap = mm_init-IsStore h.blocks h.allocated h.lock heap

pub coalesce_memory-IsStore :
    (blocks : List Block) (allocated fuel : ℕ)
    → IsStore blocks allocated
    → IsStore (coalesce_memory fuel blocks) allocated
coalesce_memory-IsStore blocks allocated fuel h = record {
  stop = h.stop;
  covered = h.covered;
  tiled =
      coalesce_memory-keeps (λ r. IsTiled 0 r h.stop)
        (merge_pass-IsTiled 0 h.stop (omega (arith, stop_below h.stop h.covered))) fuel blocks
        h.tiled;
  counted = h.counted ∙ ap total (sym (coalesce_memory-used fuel blocks));
}

-- what the search changes about the areas in use
pub Placed-used :
    (size offset : ℕ) (blocks : List Block) (p : Block × List Block)
    (r : Placed size offset blocks p)
    → (used blocks ≡ used r.0.front ++ used r.0.back)
      × (used p.1 ≡ used r.0.front ++ ((p.0.at + header, p.0.size) ∷ used r.0.back))
      × (size ≤ p.0.size)
Placed-used size offset blocks p (s, fit, block, chain) =
    let (at, taken, room, rest) =
      split_taken size s.block s.back (serves_fits size offset s.block fit) in
    let cut = (split_block size s.block).0 in
    let free = used-free s.block s.back (serves_free size offset s.block fit) in
    (
      ap used s.whole
          ∙ used-append s.front (s.block ∷ s.back)
          ∙ ap (λ (r : List (ℕ × ℕ)). used s.front ++ r) free,
      ap used chain
          ∙ used-append s.front (cut ∷ ((split_block size s.block).1 ++ s.back))
          ∙ ap (λ (r : List (ℕ × ℕ)). used s.front ++ r)
              (used-taken cut ((split_block size s.block).1 ++ s.back) taken
                ∙ ap₂ (λ (q : Block) (r : List (ℕ × ℕ)). (q.at + header, q.size) ∷ r) (sym block)
                    rest),
      subst (λ (q : Block). size ≤ q.size) (sym block) room,
    )

pub Released-used :
    (ptr : ℕ) (blocks : List Block) (p : ℕ × List Block) (r : Released ptr blocks p)
    → (used blocks ≡ used r.0.front ++ ((ptr, p.0) ∷ used r.0.back))
      × (used p.1 ≡ used r.0.front ++ used r.0.back)
Released-used ptr blocks p (s, taken, here, size, chain) =
    let freed : Block = record s.block { free = true } in
    (
      ap used s.whole
          ∙ used-append s.front (s.block ∷ s.back)
          ∙ ap (λ (r : List (ℕ × ℕ)). used s.front ++ r)
              (used-taken s.block s.back taken
                ∙ ap₂ (λ (a n : ℕ). (a, n) ∷ used s.back) here (sym size)),
      ap used chain
          ∙ used-append s.front (freed ∷ s.back)
          ∙ ap (λ (r : List (ℕ × ℕ)). used s.front ++ r) (used-free freed s.back refl),
    )

-- an area more, or one less, is counted
counted_more :
    (xs ys : List (ℕ × ℕ)) (a : ℕ × ℕ) → total (xs ++ (a ∷ ys)) ≡ total (xs ++ ys) + (a.1 + header)
counted_more xs ys a =
    let rest : total (a ∷ ys) ≡ a.1 + header + total ys = unfold total in refl in
    omega (arith, total-append xs (a ∷ ys), total-append xs ys, rest)

pub place-IsStore :
    (size offset allocated : ℕ) (blocks : List Block) (p : Block × List Block)
    → IsStore blocks allocated
    → Placed size offset blocks p
    → IsStore p.1 (u32 (allocated + (p.0.size + header)))
place-IsStore size offset allocated blocks p h r =
    let areas = Placed-used size offset blocks p r in
    let tiled = place-IsTiled size offset 0 h.stop blocks p h.tiled r in
    let before = h.counted ∙ ap total areas.0 in
    let after =
      ap total areas.1
      ∙ counted_more (used r.0.front) (used r.0.back) (p.0.at + header, p.0.size) in
    record {
      stop = h.stop;
      covered = h.covered;
      tiled = tiled;
      counted =
          omega
            (arith, before, after, total-used-le 0 h.stop p.1 tiled, stop_below h.stop h.covered);
    }

pub release-IsStore :
    (ptr allocated : ℕ) (blocks : List Block) (p : ℕ × List Block)
    → IsStore blocks allocated
    → Released ptr blocks p
    → IsStore p.1 (u32 (allocated + (2 ^ 32 - (p.0 + header))))
release-IsStore ptr allocated blocks p h r =
    let areas = Released-used ptr blocks p r in
    let before =
      h.counted ∙ ap total areas.0 ∙ counted_more (used r.0.front) (used r.0.back) (ptr, p.0) in
    let after = ap total areas.1 in
    record {
      stop = h.stop;
      covered = h.covered;
      tiled = release-IsTiled ptr 0 h.stop blocks p h.tiled r;
      counted = omega (
        arith,
        before,
        after,
        h.counted,
        total-used-le 0 h.stop blocks h.tiled,
        stop_below h.stop h.covered,
      );
    }

-- what `take_block` and `_free_s` make of what their searches say
taken-IsHeap :
    (size offset : ℕ) (h : Heap)
    → IsHeap h
    → (o : Option (Block × List Block)) → PlaceResult size offset h.blocks o
    → IsHeap
        (elim o as (λ x. Answer × Heap) [
          | none ↦ (missing, h)
          | some p ↦ (
            found (p.0.at + header),
            record h { blocks = p.1; allocated = u32 (h.allocated + (p.0.size + header)) },
          )
        ]).1
taken-IsHeap size offset h heap none r = heap
taken-IsHeap size offset h heap (some p) r = place-IsStore size offset h.allocated h.blocks p heap r

freed-IsHeap :
    (ptr : ℕ) (h : Heap)
    → IsHeap h
    → (o : Option (ℕ × List Block)) → ReleaseResult ptr h.blocks o
    → IsHeap (elim o as (λ x. Heap) [
      | none ↦ h
      | some p ↦ record h {
        blocks = p.1;
        allocated = u32 (h.allocated + (2 ^ 32 - (p.0 + header)));
      }
    ])
freed-IsHeap ptr h heap none r = heap
freed-IsHeap ptr h heap (some p) r = release-IsStore ptr h.allocated h.blocks p heap r

take_block-IsHeap : (size offset : ℕ) (h : Heap) → IsHeap h → IsHeap (take_block size offset h).1
unfolding take_block
take_block-IsHeap size offset h heap =
    taken-IsHeap size offset h heap (place size offset h.blocks) (place_found size offset h.blocks)

malloc_round-IsHeap :
    (size offset : ℕ) (prepare_mem : Bool) (h : Heap)
    → IsHeap h
    → IsHeap (malloc_round size offset prepare_mem h).1
unfolding malloc_round take_malloc_lock drop_malloc_lock
malloc_round-IsHeap size offset prepare_mem h heap =
    let h1 = (take_malloc_lock h).1 in
    let h2 : Heap = record h1 {
      blocks = if prepare_mem then coalesce_memory 2 h.blocks else h.blocks;
    } in
    let ready : IsHeap h2 =
      pick (λ (r : List Block). IsStore r h.allocated) prepare_mem (coalesce_memory 2 h.blocks)
        h.blocks (coalesce_memory-IsStore h.blocks h.allocated 2 heap) heap in
    let result = take_block (align size) (u32 (align offset)) h2 in
    pick (λ (r : Answer × Heap). IsHeap r.1) (size == 0) (refused, h) _ heap
      (pick (λ (r : Answer × Heap). IsHeap r.1) (take_malloc_lock h).0
        (result.0, drop_malloc_lock result.1) (refused, h1)
        (take_block-IsHeap (align size) (u32 (align offset)) h2 ready) heap)

retry-IsHeap :
    (size : ℕ) (answer : Answer) (h : Heap) → IsHeap h → IsHeap (retry size (answer, h)).1
unfolding retry
retry-IsHeap size missing h heap = malloc_round-IsHeap (align size) 0 true h heap
retry-IsHeap size refused h heap = heap
retry-IsHeap size (found ptr) h heap = heap

pub malloc_s-IsHeap : (size : ℕ) (h : Heap) → IsHeap h → IsHeap (malloc_s size h).1
unfolding malloc_s
malloc_s-IsHeap size h heap =
    let first = malloc_round size 0 false h in
    retry-IsHeap size first.0 first.1 (malloc_round-IsHeap size 0 false h heap)

pub free_s-IsHeap : (ptr : ℕ) (h : Heap) → IsHeap h → IsHeap (free_s ptr h)
unfolding free_s take_malloc_lock drop_malloc_lock
free_s-IsHeap ptr h heap = pick IsHeap (not (ltb ptr buffer_size)) h _ heap (
    pick IsHeap (not (take_malloc_lock h).0) (take_malloc_lock h).1 _ heap (
      freed-IsHeap ptr (take_malloc_lock h).1 heap (release ptr h.blocks)
        (release_found ptr h.blocks)))
