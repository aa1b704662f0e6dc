-- ===== src/Errors/Stored.antt =====
-- src/errors.c: `errors_register_error`, and the `errors_last_error` that comes after it.
use ni_fat.Base.{ℕ, ◌+◌, ◌*◌, ◌<◌, ◌≤◌, ◌≡◌, ◌≢◌, refl, sym, subst, arith, Bool, true, false}
use ni_fat.Base.{if◌then◌else◌, inl, some, u32}
use ni_fat.Threading.{null_lock}
use ni_fat.State.{FatData, Errors, Core, Driver, IsDevice, ready}
use ni_fat.Hamming.Buffer.{le32, packed}
use ni_fat.Hamming.Buffer.Roundtrip.{length-packed-le32}
use ni_fat.Disk.Sectors.{at_rest}
use ni_fat.Disk.Copies.{put_copies-Holds, put_copies_apart}
use ni_fat.Errors.{next_ring_index, advance, consume, register_error, last_error, no_code}
use ni_fat.Errors.Copies.{Copy, sector, put}
use ni_fat.Errors.Alone.{info, register_error-at_rest, last_error-at_rest}

-- a single code in the ring: what follows it is another index
next-ne : (fi : FatData) (i : ℕ) → 1 ≤ i → 8 < fi.cluster_size → next_ring_index i fi ≢ i
unfolding next_ring_index
next-ne fi i h k = ground arith

next-lt :
    (fi : FatData) (i : ℕ)
    → fi.cluster_size ≤ 0x40000
    → 4 < fi.cluster_size
    → next_ring_index i fi < 0x10000
unfolding next_ring_index
next-lt fi i h k = ground arith

succeeds :
    {A : Type 0} (b b' : Bool) (x y : A)
    → (let r : Bool × A = if b then (b', x) else (false, y) in r.0) ≡ true
    → (b ≡ true) × (b' ≡ true)
succeeds true b' x y h = (refl, h)
succeeds false b' x y h = cc

-- the ring after its first code
advance_empty :
    (fi : FatData) (e : Errors)
    → e.first_error ≡ e.current
    → 1 ≤ e.current
    → 8 < fi.cluster_size
    → fi.cluster_size ≤ 0x40000
    → ((advance fi e).first_error ≡ e.current)
      × ((advance fi e).last_error ≡ next_ring_index e.current fi)
unfolding advance
advance_empty fi e h k room size = ground (arith, next-ne fi e.current, next-lt fi e.current size)

consumed :
    (fi : FatData) (e : Errors)
    → e.last_error ≡ next_ring_index e.first_error fi
    → e.last_error < 0x10000
    → (consume fi e).first_error ≡ (consume fi e).last_error
unfolding consume
consumed fi e h k = ground arith

-- A code of 32 bits other than -1 that was registered in an empty ring is what the next `errors_last_error`
-- returns, and the ring is empty again. The device keeps what is written, there is at least one copy
-- of the registry, the index is one of 1 to 0xffff whose entry lies inside the sector, a cluster has
-- 9 to 0x40000 bytes, and `errors_register_error` reported success.
pub last-register_error :
    {S : Type 0} (d : Driver S) (fi : FatData) (c : Core S) (code : ℕ)
    → IsDevice d c.sector_size
    → c.errors.first_error ≡ c.errors.current
    → 1 ≤ c.errors.current
    → c.errors.current < 0x10000
    → c.errors.current * 8 + 8 ≤ c.sector_size
    → 8 < fi.cluster_size
    → fi.cluster_size ≤ 0x40000
    → 0 < fi.errors_count
    → code < no_code
    → let (registered, s) = register_error d fi code (ready c) in
      registered ≡ true
      → let (oldest, s') = last_error d fi s in
        let e = s'.core.errors in (oldest ≡ some code) × (e.first_error ≡ e.last_error)
last-register_error {S} d fi c code dev empty pos short fits room size copies bound ok =
    let i : ℕ = c.errors.current in
    let ring : Errors = advance fi c.errors in
    let p = put d fi i code fi.errors_count 0 c.store in
    let q = put d fi 0 (info ring) fi.errors_count 0 p.1 in
    let N : ℕ = null_lock in
    let c' : Core S = record c { store = q.1; errors = ring } in
    let run = register_error-at_rest d fi c N N N code (omega arith) in
    let both : (p.0 ≡ true) × (q.0 ≡ true) =
      succeeds p.0 q.0 (at_rest c' N N N N) (at_rest (record c { store = p.1 }) N N N N)
        (rw run at ok) in
    let shape = advance_empty fi c.errors empty pos room size in
    let held : (j : ℕ) → j < fi.errors_count → Copy d fi c' ring.first_error code j = λ j h.
      subst (λ (k : ℕ). Copy d fi c' k code j) (sym shape.0)
        (put_copies_apart d 0 (packed (le32 (info ring))) (sector d fi) c.sector_size dev
          (omega (arith, length-packed-le32 (info ring))) fi.errors_count 0 p.1 (sector d fi j)
          (u32 (i * 8)) (packed (le32 code)) (omega (arith, length-packed-le32 code))
          (inl (omega (arith, length-packed-le32 (info ring))))
          (put_copies-Holds d (u32 (i * 8)) (packed (le32 code)) (sector d fi) c.sector_size dev
            (omega (arith, length-packed-le32 code)) fi.errors_count 0 c.store j both.0
            (omega arith) (omega arith))) in
    let last : last_error d fi (ready c')
        ≡ let q' = put d fi 0 (info (consume fi ring)) fi.errors_count 0 q.1 in
          (some code, ready (record c { store = q'.1; errors = consume fi ring })) =
      last_error-at_rest d fi c' N N N code bound copies (omega (arith, shape))
        (ground (arith, shape, next-ne fi i)) held in
    rw (run, both.0, last)
      (refl, consumed fi ring (ground (arith, shape)) (omega (arith, shape, next-lt fi i size)))
