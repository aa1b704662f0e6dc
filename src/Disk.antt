-- ===== src/Disk.antt =====
-- src/disk.c: transfers of bytes to and from runs of sectors, each under a lock on its area.
pub mod Areas
pub mod Transfer
pub mod Sectors
pub mod Single
pub mod Copies
use ni_fat.Base.{
  ℕ, zero, suc, ◌+◌, ◌-◌, ◌==◌, ltb, if◌then◌else◌, Bool, true, false, not, ◌&&◌, ◌||◌,
}
use ni_fat.Base.{List, [], ◌∷◌, ◌++◌, length, take, drop, set, Option, none, some, u32}
use ni_fat.Threading.{require_write, release_write, quiet, thread_num}
use ni_fat.State.{Area, free_area, free_areas, Guard, Core, State, Driver}

abbrev pub write_lock : Bool
write_lock = false

abbrev pub read_lock : Bool
read_lock = true

-- `count == size`, where -1 is no size
abbrev pub is_count : Option ℕ → ℕ → Bool
is_count none size = false
is_count (some c) size = c == size

-- The test of an area in use against the request: they overlap and one of them writes.
unfoldable pub conflicts : ℕ → ℕ → Bool → ℕ → ℕ → Bool → Bool
conflicts sa size ro start count area_ro =
    ltb start (u32 (sa + size)) && ltb sa (u32 (start + count)) && not (ro && area_ro)

pub record Scan : Type 0 where
  pub locked : Bool
  pub found : Option ℕ

abbrev pub or_else : Option ℕ → ℕ → Option ℕ
or_else none i = some i
or_else (some j) i = some j

-- The loop over the areas, from index `i` on. The `break` on a conflict leaves `found` unread.
unfoldable pub scan : ℕ → ℕ → Bool → ℕ → Option ℕ → List Area → Scan
scan sa size ro i found [] = record { locked = false; found = found }
scan sa size ro i found (a ∷ rest) = elim a.count [
  | none ↦ scan sa size ro (i + 1) (or_else found i) rest
  | some c ↦ elim (conflicts sa size ro a.start c a.ro) [
    | true ↦ record { locked = true; found = found }
    | false ↦ scan sa size ro (i + 1) found rest
  ]
]

-- what the scan decides: the entry to take, if any
unfoldable pub grant : Scan → Option ℕ
grant r = if r.locked then none else r.found

unfoldable pub lock_area : ℕ → ℕ → Bool → Guard → Bool × Guard
lock_area sa size ro g =
    let got = require_write quiet g.io_lock thread_num in
    let freed = (release_write 1 quiet got.word thread_num).word in
    if got.taken
    then elim (grant (scan sa size ro 0 none g.areas)) [
      | some i ↦ (
        true,
        record g {
          io_lock = freed;
          areas = set g.areas i (record { start = sa; count = some size; ro = ro });
        },
      )
      | none ↦ (false, record g { io_lock = freed })
    ]
    else (false, record g { io_lock = got.word })

-- frees the first area with this start and count
unfoldable pub clear_area : ℕ → ℕ → List Area → List Area
clear_area sa size [] = []
clear_area sa size (a ∷ rest) =
    if a.start == sa && is_count a.count size then free_area ∷ rest else a ∷ clear_area sa size rest

unfoldable pub unlock_area : ℕ → ℕ → Guard → Bool × Guard
unlock_area sa size g =
    let got = require_write quiet g.io_lock thread_num in
    if got.taken
    then (
      true,
      record g {
        io_lock = (release_write 1 quiet got.word thread_num).word;
        areas = clear_area sa size g.areas;
      },
    )
    else (false, record g { io_lock = got.word })

-- a buffer after `bytes` were stored at its start
abbrev pub overwrite : List ℕ → List ℕ → List ℕ
overwrite buffer bytes = bytes ++ drop (length bytes) buffer

abbrev pub min_of : ℕ → ℕ → ℕ
min_of room left = if ltb room left then room else left

module _ {S : Type 0} (d : Driver S) where
  -- `read_sector`'s result and the buffer, from `total_readden` on, after it
  unfoldable pub read_rounds : S → ℕ → ℕ → ℕ → ℕ → ℕ → List ℕ → Bool × List ℕ
  read_rounds t ss zero sa offset left buffer = (true, buffer)
  read_rounds t ss (suc n) sa offset left buffer =
      let size = min_of (ss - offset) left in
      let (status, bytes) = d.read_sector t sa offset size in
      let filled = overwrite buffer bytes in
      let skipped = read_rounds t ss n (u32 (sa + 1)) (offset - ss) left buffer in
      let rest = read_rounds t ss n (u32 (sa + 1)) 0 (left - size) (drop size filled) in
      if left == 0
      then (true, buffer)
      else if ltb ss offset
      then skipped
      else if status == 0
      then (false, filled)
      else (rest.0, take size filled ++ rest.1)

  unfoldable pub write_rounds : S → ℕ → ℕ → ℕ → ℕ → ℕ → List ℕ → Bool × S
  write_rounds t ss zero sa offset left bytes = (true, t)
  write_rounds t ss (suc n) sa offset left bytes =
      let size = min_of (ss - offset) left in
      let (status, t') = d.write_sector t sa offset (take size bytes) in
      let skipped = write_rounds t ss n (u32 (sa + 1)) (offset - ss) left bytes in
      let rest = write_rounds t' ss n (u32 (sa + 1)) 0 (left - size) (drop size bytes) in
      if left == 0
      then (true, t)
      else if ltb ss offset
      then skipped
      else if status == 0
      then (false, t')
      else rest

  -- DSK_readoff_sectors: what it returns, and the buffer
  unfoldable pub readoff_sectors : ℕ → ℕ → List ℕ → ℕ → ℕ → State S → (Bool × List ℕ) × State S
  readoff_sectors sa offset buffer buff_size sc s =
      let (held, g) = lock_area sa sc read_lock s.guard in
      let r = read_rounds s.core.store s.core.sector_size sc sa offset buff_size buffer in
      if held
      then (r, record s { guard = (unlock_area sa sc g).1 })
      else ((false, buffer), record s { guard = g })

  -- DSK_writeoff_sectors
  unfoldable pub writeoff_sectors : ℕ → ℕ → List ℕ → ℕ → ℕ → State S → Bool × State S
  writeoff_sectors sa offset bytes size sc s =
      let (held, g) = lock_area sa sc write_lock s.guard in
      let c = s.core in
      let (written, t) = write_rounds c.store c.sector_size sc sa offset size bytes in
      if held
      then (written, record { core = record c { store = t }; guard = (unlock_area sa sc g).1 })
      else (false, record s { guard = g })

  -- DSK_read_sector and DSK_write_sector return what the callback returns.
  unfoldable pub read_sector : ℕ → List ℕ → ℕ → State S → (ℕ × List ℕ) × State S
  read_sector sa buffer buff_size s =
      let (held, g) = lock_area sa 1 read_lock s.guard in
      let (status, bytes) = d.read_sector s.core.store sa 0 buff_size in
      if held
      then ((status, overwrite buffer bytes), record s { guard = (unlock_area sa 1 g).1 })
      else ((0, buffer), record s { guard = g })

  unfoldable pub write_sector : ℕ → List ℕ → State S → ℕ × State S
  write_sector sa bytes s =
      let (held, g) = lock_area sa 1 write_lock s.guard in
      let c = s.core in
      let (status, t) = d.write_sector c.store sa 0 bytes in
      if held
      then (status, record { core = record c { store = t }; guard = (unlock_area sa 1 g).1 })
      else (0, record s { guard = g })

  -- the rounds of DSK_copy_sectors left, with `copy_result` so far
  unfoldable pub copy_rounds : S → ℕ → ℕ → ℕ → List ℕ → ℕ → ℕ → ℕ × S
  copy_rounds t zero src dst buffer size total = (total, t)
  copy_rounds t (suc n) src dst buffer size total =
      let (readden, bytes) = d.read_sector t src 0 size in
      let filled = overwrite buffer bytes in
      let (written, t') = d.write_sector t dst 0 (take size filled) in
      let rest =
        copy_rounds t' n (u32 (src + 1)) (u32 (dst + 1)) filled size
          (total + (readden + written)) in
      if readden == 0 then (0, t) else if written == 0 then (0, t') else rest

  unfoldable pub copy_sectors : ℕ → ℕ → ℕ → List ℕ → ℕ → State S → ℕ × State S
  copy_sectors src dst sc buffer size s =
      let (source, g) = lock_area src sc read_lock s.guard in
      let (target, h) = lock_area dst sc write_lock g in
      let c = s.core in
      let (copied, t) = copy_rounds c.store sc src dst buffer size 0 in
      let ends = (unlock_area src sc (unlock_area dst sc h).1).1 in
      if not source
      then (0, record s { guard = g })
      else if target
      then (copied, record { core = record c { store = t }; guard = ends })
      else (0, record s { guard = (unlock_area src sc h).1 })

-- DSK_setup. The callbacks are the parameter `d` elsewhere; `given` is whether they are non-null.
unfoldable pub setup : {S : Type 0} → Bool → ℕ → State S → Bool × State S
setup given size s =
    let c = s.core in
    let g = s.guard in
    if not given || size == 0 then (false, s) else (
      true,
      record { core = record c { sector_size = size }; guard = record g { areas = free_areas } },
    )
