-- ===== src/Disk/Areas.antt =====
-- src/disk.c, `_lock_area` and `_unlock_area`: which areas are in use at the same time.
use ni_fat.Base.{
  ℕ, zero, suc, ◌+◌, ◌<◌, ◌≤◌, ◌≡◌, ==_iff, refl, arith, Bool, true, false, ◌⊎◌, inl, inr,
}
use ni_fat.Base.{List, [], ◌∷◌, set, Option, none, some, All}
use ni_fat.Threading.{
  thread_num, quiet, require_write, release_write, attempts, try_write, try_release_write,
}
use ni_fat.State.{Area, free_area, free_areas, Guard, idle, unlocked}
use mathlib.Core.Bool.{true≢false}
use ni_fat.Base.{Option-cases, Bool-cases, ◌==◌, ◌&&◌}
use ni_fat.Disk.{
  or_else, is_count, conflicts, Scan, scan, grant, lock_area, unlock_area, clear_area,
}

module _ (sa size : ℕ) (ro : Bool) (e m f a : ℕ) where
  pub lock_area-idle : (lock_area sa size ro (idle e m f a)).0 ≡ true
  unfolding lock_area scan grant require_write attempts try_write
  lock_area-idle = refl

  -- A lone request for an area is granted, and `_unlock_area` then leaves everything as it was.
  pub unlock-lock_area :
      (unlock_area sa size (lock_area sa size ro (idle e m f a)).1).1 ≡ idle e m f a
  unfolding lock_area scan grant unlock_area clear_area require_write attempts try_write
      release_write try_release_write
  unlock-lock_area = rw ((==_iff sa sa).1 refl, (==_iff size size).1 refl)

-- Two uses of the disk may go on together: their sectors are disjoint, or both only read.
abbrev Apart : ℕ → ℕ → Bool → ℕ → ℕ → Bool → Type 0
Apart sa size ro start count area_ro =
    (start + count ≤ sa) ⊎ ((sa + size ≤ start) ⊎ ((ro ≡ true) × (area_ro ≡ true)))

abbrev pub ApartFrom : ℕ → ℕ → Bool → Area → Type 0
ApartFrom sa size ro a = elim a.count [ none ↦ Unit {0} | some c ↦ Apart sa size ro a.start c a.ro ]

-- the area ends below the last 32-bit address
abbrev pub Fits : Area → Type 0
Fits a = elim a.count [ none ↦ Unit {0} | some c ↦ a.start + c < 0x100000000 ]

abbrev pub AreasApart : Area → Area → Type 0
AreasApart b a = elim b.count [ none ↦ Unit {0} | some c ↦ ApartFrom b.start c b.ro a ]

-- No two entries of the table in use get in each other's way.
abbrev pub IsExclusive : List Area → Type 0
IsExclusive [] = Unit
IsExclusive (a ∷ rest) = Fits a × All (AreasApart a) rest × IsExclusive rest

conflicts-Apart :
    (sa size : ℕ) (ro : Bool) (start c : ℕ) (area_ro : Bool)
    → sa + size < 0x100000000
    → start + c < 0x100000000
    → conflicts sa size ro start c area_ro ≡ false
    → Apart sa size ro start c area_ro
unfolding conflicts
conflicts-Apart sa size ro start c area_ro h k e = ground arith

scan-ApartFrom :
    (sa size : ℕ) (ro : Bool) (i : ℕ) (found : Option ℕ) (areas : List Area)
    → sa + size < 0x100000000
    → IsExclusive areas
    → (scan sa size ro i found areas).locked ≡ false
    → All (ApartFrom sa size ro) areas
unfolding scan
scan-ApartFrom sa size ro i found [] h x e = tt
scan-ApartFrom sa size ro i found (a ∷ rest) h x e = elim (Option-cases a.count) [
  | inl n ↦
      (rw n tt, scan-ApartFrom sa size ro (i + 1) (or_else found i) rest h x.2 (rw (n, scan) at e))
  | inr (c, q) ↦ elim (Bool-cases (conflicts sa size ro a.start c a.ro)) [
    | inl busy ↦ absurd (true≢false (rw (q, busy, scan) at e))
    | inr clear ↦ (
      rw q (conflicts-Apart sa size ro a.start c a.ro h (rw q at x.0) clear),
      scan-ApartFrom sa size ro (i + 1) found rest h x.2 (rw (q, clear, scan) at e),
    )
  ]
]

-- taking a free entry for an area that is apart from all others
All-set :
    (P : Area → Type 0) (areas : List Area) (i : ℕ) (a : Area)
    → P a
    → All P areas
    → All P (set areas i a)
All-set P [] i a p h = tt
All-set P (b ∷ rest) zero a p h = (p, h.1)
All-set P (b ∷ rest) (suc i) a p h = (h.0, All-set P rest i a p h.1)

AreasApart-symm :
    (sa size : ℕ) (ro : Bool) (b : Area)
    → ApartFrom sa size ro b
    → AreasApart b (record { start = sa; count = some size; ro = ro })
AreasApart-symm sa size ro b h = elim (Option-cases b.count) [
  | inl n ↦ rw n tt
  | inr (c, q) ↦ rw q (flip b.start c b.ro (rw q at h))
]
  where
    flip :
        (start c : ℕ) (area_ro : Bool)
        → Apart sa size ro start c area_ro
        → Apart start c area_ro sa size ro
    flip start c r (inl k) = inr (inl k)
    flip start c r (inr (inl k)) = inl k
    flip start c r (inr (inr k)) = inr (inr (k.1, k.0))

set-IsExclusive :
    (areas : List Area) (i sa size : ℕ) (ro : Bool)
    → sa + size < 0x100000000
    → IsExclusive areas
    → All (ApartFrom sa size ro) areas
    → IsExclusive (set areas i (record { start = sa; count = some size; ro = ro }))
set-IsExclusive [] i sa size ro h x p = tt
set-IsExclusive (b ∷ rest) zero sa size ro h x p = (h, p.1, x.2)
set-IsExclusive (b ∷ rest) (suc i) sa size ro h x p = (
  x.0,
  All-set (AreasApart b) rest i _ (AreasApart-symm sa size ro b p.0) x.1,
  set-IsExclusive rest i sa size ro h x.2 p.1,
)

grant-locked : (r : Scan) {i : ℕ} → grant r ≡ some i → r.locked ≡ false
unfolding grant
grant-locked r e = ground arith

lock_area-IsExclusive :
    (sa size : ℕ) (ro : Bool) (g : Guard)
    → sa + size < 0x100000000
    → IsExclusive g.areas
    → IsExclusive (lock_area sa size ro g).1.areas
unfolding lock_area
lock_area-IsExclusive sa size ro g h x =
    elim (Bool-cases (require_write quiet g.io_lock thread_num).taken) [
      | inr busy ↦ rw busy x
      | inl got ↦ elim (Option-cases (grant (scan sa size ro 0 none g.areas))) [
        | inl refused ↦ rw (got, refused) x
        | inr (i, granted) ↦
            rw (got, granted)
              (set-IsExclusive g.areas i sa size ro h x
                (scan-ApartFrom sa size ro 0 none g.areas h x (grant-locked _ granted)))
      ]
    ]

clear_area-All :
    (P : Area → Type 0) (sa size : ℕ) (areas : List Area)
    → P free_area
    → All P areas
    → All P (clear_area sa size areas)
unfolding clear_area
clear_area-All P sa size [] p h = tt
clear_area-All P sa size (a ∷ rest) p h =
    elim (Bool-cases (a.start == sa && is_count a.count size)) [
      | inl e ↦ rw e (p, h.1)
      | inr e ↦ rw e (h.0, clear_area-All P sa size rest p h.1)
    ]

AreasApart-free : (b : Area) → AreasApart b free_area
AreasApart-free b = elim (Option-cases b.count) [ inl n ↦ rw n tt | inr (c, q) ↦ rw q tt ]

clear_area-IsExclusive :
    (sa size : ℕ) (areas : List Area) → IsExclusive areas → IsExclusive (clear_area sa size areas)
unfolding clear_area
clear_area-IsExclusive sa size [] h = tt
clear_area-IsExclusive sa size (a ∷ rest) h =
    elim (Bool-cases (a.start == sa && is_count a.count size)) [
      | inl e ↦ rw e (tt, All_apart_free rest, h.2)
      | inr e ↦ rw e (
        h.0,
        clear_area-All (AreasApart a) sa size rest (AreasApart-free a) h.1,
        clear_area-IsExclusive sa size rest h.2,
      )
    ]
  where
    All_apart_free : (l : List Area) → All (AreasApart free_area) l
    All_apart_free [] = tt
    All_apart_free (b ∷ l) = (tt, All_apart_free l)

unlock_area-IsExclusive :
    (sa size : ℕ) (g : Guard) → IsExclusive g.areas → IsExclusive (unlock_area sa size g).1.areas
unfolding unlock_area
unlock_area-IsExclusive sa size g x =
    elim (Bool-cases (require_write quiet g.io_lock thread_num).taken) [
      | inl got ↦ rw got (clear_area-IsExclusive sa size g.areas x)
      | inr busy ↦ rw busy x
    ]

-- what the threads ask of the table, one call after the other
pub data Request : Type 0 where
  begin : (sa size : ℕ) → Bool → Request
  end : (sa size : ℕ) → Request

pub serve : Guard → List Request → Guard
serve g [] = g
serve g (begin sa size ro ∷ rest) = serve (lock_area sa size ro g).1 rest
serve g (end sa size ∷ rest) = serve (unlock_area sa size g).1 rest

-- the request's sectors have 32-bit addresses
abbrev pub IsRequest : Request → Type 0
IsRequest (begin sa size ro) = sa + size < 0x100000000
IsRequest (end sa size) = Unit

free_areas-IsExclusive : IsExclusive free_areas
free_areas-IsExclusive = omega arith

serve-keeps :
    (g : Guard) (requests : List Request)
    → All IsRequest requests
    → IsExclusive g.areas
    → IsExclusive (serve g requests).areas
unfolding serve
serve-keeps g [] r x = x
serve-keeps g (begin sa size ro ∷ rest) r x =
    serve-keeps (lock_area sa size ro g).1 rest r.1 (lock_area-IsExclusive sa size ro g r.0 x)
serve-keeps g (end sa size ∷ rest) r x =
    serve-keeps (unlock_area sa size g).1 rest r.1 (unlock_area-IsExclusive sa size g x)

-- After any sequence of `_lock_area` and `_unlock_area` calls on 32-bit ranges of sectors, from
-- the table that `DSK_setup` leaves, any two areas in use are disjoint, or both for reading only.
pub serve-IsExclusive :
    (requests : List Request) → All IsRequest requests → IsExclusive (serve unlocked requests).areas
serve-IsExclusive requests r = serve-keeps unlocked requests r free_areas-IsExclusive
