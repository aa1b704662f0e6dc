-- ===== src/Memory/Release.antt =====
-- `_free_s` on an area in use.
use ni_fat.Base.{
  ℕ, ◌+◌, ◌^◌, ◌≤◌, ◌<◌, ◌≡◌, ◌≢◌, refl, sym, ap, ap₂, subst, ◌∙◌, arith, true, false, Bool-cases,
  inl, inr, List, [], ◌∷◌, ◌++◌, ◌==◌, ltb, lt→ltb, if◌then◌else◌, some, none, ne→==, get_or, drop,
  length, length-append,
}
use ni_fat.Threading.{
  null_lock, require_write, release_write, attempts, try_write, try_release_write,
}
use ni_fat.Memory.{
  Block, Heap, buffer_size, header, release, take_malloc_lock, drop_malloc_lock, Answer, found,
  malloc_s, free_s, align,
}
use ni_fat.Memory.Tiling.{IsTiled}
use ni_fat.Memory.Areas.{used, used-free, used-taken, IsApart, used-IsApart}
use ni_fat.Memory.Invariant.{IsStore, IsHeap, malloc_s-IsHeap, stop_below}
use ni_fat.Memory.Contract.{at_rest, Handed, MallocResult, malloc_s-fulfils, align_room}

IsApart-le : (start stop : ℕ) (areas : List (ℕ × ℕ)) → IsApart start areas stop → start ≤ stop
unfolding IsApart
IsApart-le start stop [] h = h
IsApart-le start stop (a ∷ areas) h = omega (arith, h.0, IsApart-le (a.0 + a.1) stop areas h.1)

-- an area of a list stands behind a header, and ends inside
area_inside :
    (start stop : ℕ) (xs ys : List (ℕ × ℕ)) (a : ℕ × ℕ)
    → IsApart start (xs ++ (a ∷ ys)) stop
    → (start + header ≤ a.0) × (a.0 + a.1 ≤ stop)
unfolding IsApart
area_inside start stop [] ys a h = (h.0, IsApart-le (a.0 + a.1) stop ys h.1)
area_inside start stop (x ∷ xs) ys a h =
    let later = area_inside (x.0 + x.1) stop xs ys a h.1 in (omega (arith, h.0, later.0), later.1)

-- what freeing an area leaves
abbrev pub Freed : ℕ → ℕ → List (ℕ × ℕ) → List (ℕ × ℕ) → List Block → Type 0
Freed ptr n xs ys blocks =
    (p : ℕ × List Block) × (release ptr blocks ≡ some p) × (p.0 ≡ n) × (used p.1 ≡ xs ++ ys)

release_here :
    (ptr : ℕ) (b : Block) (bs : List Block)
    → b.at + header ≡ ptr
    → b.free ≡ false
    → release ptr (b ∷ bs) ≡ some (b.size, record b { free = true } ∷ bs)
unfolding release
release_here ptr b bs here taken =
    let test : (b.at + header == ptr) ≡ true = ground arith in
    rw test (ap (λ f. if f then none else some (b.size, record b { free = true } ∷ bs)) taken)

release_skip :
    (ptr : ℕ) (b : Block) (bs : List Block) (p : ℕ × List Block)
    → b.at + header ≢ ptr
    → release ptr bs ≡ some p
    → release ptr (b ∷ bs) ≡ some (p.0, b ∷ p.1)
unfolding release
release_skip ptr b bs p other e = rw (ne→== other) (rw e refl)

Freed-later :
    (ptr n start stop : ℕ) (b : Block) (bs : List Block) (xs ys : List (ℕ × ℕ))
    → IsTiled start (b ∷ bs) stop
    → used bs ≡ xs ++ ((ptr, n) ∷ ys)
    → Freed ptr n xs ys bs
    → (p : ℕ × List Block) × (release ptr (b ∷ bs) ≡ some (p.0, b ∷ p.1))
      × (p.0 ≡ n)
      × (used p.1 ≡ xs ++ ys)
unfolding IsTiled
Freed-later ptr n start stop b bs xs ys h e (p, ok, size, areas) =
    let apart =
      subst (λ (r : List (ℕ × ℕ)). IsApart (start + (header + b.size)) r stop) e
        (used-IsApart (start + (header + b.size)) stop bs h.1) in
    let behind = (area_inside (start + (header + b.size)) stop xs ys (ptr, n) apart).0 in
    (p, release_skip ptr b bs p (λ same. absurd (omega (arith, same, behind, h.0))) ok, size, areas)

release-taken :
    (ptr n start stop : ℕ) (b : Block) (bs : List Block) (xs ys : List (ℕ × ℕ))
    → IsTiled start (b ∷ bs) stop
    → b.free ≡ false
    → (b.at + header, b.size) ∷ used bs ≡ xs ++ ((ptr, n) ∷ ys)
    → ((zs : List (ℕ × ℕ)) → used bs ≡ zs ++ ((ptr, n) ∷ ys) → Freed ptr n zs ys bs)
    → Freed ptr n xs ys (b ∷ bs)
release-taken ptr n start stop b bs [] ys h taken e later = (
  (b.size, record b { free = true } ∷ bs),
  release_here ptr b bs (ap (λ (l : List (ℕ × ℕ)). (get_or l 0 (0, 0)).0) e) taken,
  ap (λ (l : List (ℕ × ℕ)). (get_or l 0 (0, 0)).1) e,
  used-free (record b { free = true }) bs refl ∙ ap (drop 1) e,
)
release-taken ptr n start stop b bs (x ∷ xs) ys h taken e later =
    let e' = ap (drop 1) e in
    let (p, ok, size, areas) = Freed-later ptr n start stop b bs xs ys h e' (later xs e') in
    (
      (p.0, b ∷ p.1),
      ok,
      size,
      used-taken b p.1 taken
          ∙ ap₂ (λ a r. a ∷ r) (ap (λ (l : List (ℕ × ℕ)). get_or l 0 (0, 0)) e) areas,
    )

-- the search finds an area in use, whose block becomes free
release-used :
    (ptr n start stop : ℕ) (blocks : List Block) (xs ys : List (ℕ × ℕ))
    → IsTiled start blocks stop
    → used blocks ≡ xs ++ ((ptr, n) ∷ ys)
    → Freed ptr n xs ys blocks
release-used ptr n start stop [] xs ys h e =
    let nothing : length (used []) ≡ 0 = unfold used in refl in
    absurd (omega (arith, nothing, ap length e, length-append xs ((ptr, n) ∷ ys)))
release-used ptr n start stop (b ∷ bs) xs ys h e = elim (Bool-cases b.free) [
  | inl free ↦
      let e' = sym (used-free b bs free) ∙ e in
      let (p, ok, size, areas) =
        Freed-later ptr n start stop b bs xs ys h e' (
          release-used ptr n (start + (header + b.size)) stop bs xs ys (unfold IsTiled in h.1)
            e') in
      ((p.0, b ∷ p.1), ok, size, used-free b p.1 free ∙ areas)
  | inr taken ↦
      release-taken ptr n start stop b bs xs ys h taken (sym (used-taken b bs taken) ∙ e) (λ zs e'.
        release-used ptr n (start + (header + b.size)) stop bs zs ys (unfold IsTiled in h.1) e')
]

-- Freeing an area in use of a well-formed heap, if it holds a byte, takes that area and no other off
-- the areas in use, and leaves the lock free.
pub free_s-used :
    (ptr n allocated : ℕ) (blocks : List Block) (xs ys : List (ℕ × ℕ))
    → IsStore blocks allocated
    → 0 < n
    → used blocks ≡ xs ++ ((ptr, n) ∷ ys)
    → (used (free_s ptr (at_rest blocks allocated)).blocks ≡ xs ++ ys)
      × ((free_s ptr (at_rest blocks allocated)).lock ≡ null_lock)
unfolding free_s take_malloc_lock require_write attempts try_write drop_malloc_lock release_write
    try_release_write
free_s-used ptr n allocated blocks xs ys store some_byte e =
    let (p, ok, size, areas) = release-used ptr n 0 store.stop blocks xs ys store.tiled e in
    let apart =
      subst (λ (r : List (ℕ × ℕ)). IsApart 0 r store.stop) e
        (used-IsApart 0 store.stop blocks store.tiled) in
    let inside : ltb ptr buffer_size ≡ true = lt→ltb ptr buffer_size (
      omega (
        arith,
        (area_inside 0 store.stop xs ys (ptr, n) apart).1,
        stop_below store.stop store.covered,
      )) in
    rw inside (rw ok (areas, refl))

found_area :
    (size ptr : ℕ) (blocks : List Block) (h : Heap)
    → MallocResult size blocks (found ptr, h)
    → Handed size blocks ptr h.blocks × (h.lock ≡ null_lock)
unfolding MallocResult
found_area size ptr blocks h r = r

-- An area that `malloc_s` handed out for a request as above, freed, leaves the areas in use as they were.
pub free_s-malloc_s :
    (size ptr allocated : ℕ) (blocks : List Block) (h : Heap)
    → IsStore blocks allocated
    → size + 7 < 2 ^ 64
    → 0 < size
    → malloc_s size (at_rest blocks allocated) ≡ (found ptr, h)
    → used (free_s ptr h).blocks ≡ used blocks
free_s-malloc_s size ptr allocated blocks h store small some_size e =
    let handed : MallocResult (align size) blocks (found ptr, h) =
      subst (MallocResult (align size) blocks) e
        (malloc_s-fulfils size blocks allocated small some_size) in
    let ((n, xs, ys, room, before, after), idle) = found_area (align size) ptr blocks h handed in
    let heap : IsHeap h =
      subst (λ (r : Answer × Heap). IsHeap r.1) e
        (malloc_s-IsHeap size (at_rest blocks allocated) store) in
    let same : at_rest h.blocks h.allocated ≡ h =
      λ i. record { blocks = h.blocks; allocated = h.allocated; lock = sym idle i } in
    subst (λ (g : Heap). used (free_s ptr g).blocks ≡ used blocks) same
      ((free_s-used ptr n h.allocated h.blocks xs ys heap
          (omega (arith, align_room size small, room)) after).0
        ∙ sym before)
