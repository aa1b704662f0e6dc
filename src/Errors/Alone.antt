-- ===== src/Errors/Alone.antt =====
-- src/errors.c: the functions that take `_errors_lock`, called by a thread that runs alone.
use ni_fat.Base.{ℕ, ◌+◌, ◌*◌, ◌<◌, ◌≤◌, ◌≡◌, ◌≢◌, refl, ap, ◌∙◌, arith, true, false}
use ni_fat.Base.{if◌then◌else◌, some, u32}
use ni_fat.Threading.{
  lock_pack, null_lock, thread_num, require_write, release_write, attempts, try_write,
  try_release_write,
}
use ni_fat.State.{FatData, Errors, Core, Driver}
use ni_fat.Base.{ne→==}
use ni_fat.Disk.Sectors.{at_rest}
use ni_fat.Errors.{
  dump_info, advance, consume, register_error, hand_over, last_error, no_code, take_errors_lock,
  drop_errors_lock, set_errors, pack_info,
}
use ni_fat.Errors.Copies.{Copy, put, write_error-at_rest, read_error-at_rest}

abbrev pub held_lock : ℕ
held_lock = lock_pack 0 true thread_num

module _ {S : Type 0} (c : Core S) (m f a : ℕ) where
  pub take_errors_lock-at_rest :
      take_errors_lock (at_rest c null_lock m f a) ≡ (true, at_rest c held_lock m f a)
  unfolding take_errors_lock require_write attempts try_write
  take_errors_lock-at_rest = refl

  pub drop_errors_lock-at_rest :
      drop_errors_lock (at_rest c held_lock m f a) ≡ at_rest c null_lock m f a
  unfolding drop_errors_lock release_write attempts try_release_write
  drop_errors_lock-at_rest = refl

abbrev pub info : Errors → ℕ
info e = pack_info e.first_error e.last_error

dump_info-at_rest :
    {S : Type 0} (d : Driver S) (fi : FatData) (c : Core S) (e m f a : ℕ)
    → 8 ≤ c.sector_size
    → dump_info d fi (at_rest c e m f a)
      ≡ let q = put d fi 0 (info c.errors) fi.errors_count 0 c.store in
        (q.0, at_rest (record c { store = q.1 }) e m f a)
unfolding dump_info
dump_info-at_rest d fi c e m f a h = write_error-at_rest d fi c e m f a 0 (info c.errors) h

module _ {S : Type 0} (d : Driver S) (fi : FatData) (c : Core S) (m f a : ℕ) where
  -- `errors_register_error` by a thread that runs alone: the code at `current`, then the info entry
  pub register_error-at_rest :
      (code : ℕ)
      → u32 (c.errors.current * 8) + 8 ≤ c.sector_size
      → register_error d fi code (at_rest c null_lock m f a)
        ≡ let p = put d fi c.errors.current code fi.errors_count 0 c.store in
          let ring = advance fi c.errors in
          let q = put d fi 0 (info ring) fi.errors_count 0 p.1 in
          (if p.0
            then (q.0, at_rest (record c { store = q.1; errors = ring }) null_lock m f a)
            else (false, at_rest (record c { store = p.1 }) null_lock m f a))
  unfolding register_error set_errors
  register_error-at_rest code h = rw (take_errors_lock-at_rest c m f a) (
      rw (write_error-at_rest d fi c held_lock m f a c.errors.current code h) (
        let p = put d fi c.errors.current code fi.errors_count 0 c.store in
        let c' : Core S = record c { store = p.1; errors = advance fi c.errors } in
        rw (dump_info-at_rest d fi c' held_lock m f a (omega arith)) (
          rw (
            drop_errors_lock-at_rest (record c { store = p.1 }) m f a,
            drop_errors_lock-at_rest
                (record c' { store = (put d fi 0 (info c'.errors) fi.errors_count 0 p.1).1 }) m f a,
          ))))

  -- `errors_last_error` by a thread that runs alone, where every copy holds the oldest code
  pub last_error-at_rest :
      (code : ℕ)
      → code < no_code
      → 0 < fi.errors_count
      → u32 (c.errors.first_error * 8) + 8 ≤ c.sector_size
      → c.errors.first_error ≢ c.errors.last_error
      → ((j : ℕ) → j < fi.errors_count → Copy d fi c c.errors.first_error code j)
      → last_error d fi (at_rest c null_lock m f a)
        ≡ let ring = consume fi c.errors in
          let q = put d fi 0 (info ring) fi.errors_count 0 c.store in
          (some code, at_rest (record c { store = q.1; errors = ring }) null_lock m f a)
  unfolding last_error
  last_error-at_rest code small n h ne held = rw (take_errors_lock-at_rest c m f a) (
      rw (ne→== ne) (
        ap (hand_over d fi) (
          read_error-at_rest d fi c held_lock m f a c.errors.first_error code (omega arith) h n
            (omega arith) held)
        ∙ handed))
    where
      handed :
          hand_over d fi (some code, at_rest c held_lock m f a)
          ≡ let ring = consume fi c.errors in
            let q = put d fi 0 (info ring) fi.errors_count 0 c.store in
            (some code, at_rest (record c { store = q.1; errors = ring }) null_lock m f a)
      handed =
          unfold hand_over set_errors in
          (let c' : Core S = record c { errors = consume fi c.errors } in
            rw (dump_info-at_rest d fi c' held_lock m f a (omega arith)) (
              rw (
                drop_errors_lock-at_rest
                  (record c' { store = (put d fi 0 (info c'.errors) fi.errors_count 0 c.store).1 })
                  m f a)))
