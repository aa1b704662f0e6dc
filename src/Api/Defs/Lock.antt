-- ===== src/Api/Defs/Lock.antt =====
-- nifat32.c: the lock around the functions, for a thread that runs alone.
use ni_fat.Base.{◌≡◌, ap, true, some}
use ni_fat.Threading.{
  null_lock, require_write, release_write, attempts, try_write, try_release_write, lock_pack,
  thread_num,
}
use ni_fat.Api.Defs.{
  World, Api, M, take_api_lock, drop_api_lock, give_back, keep_lock, locked, unlocked_call,
}

-- the functions between two calls
abbrev pub resting : {S T : Type 0} → World S T → Api S T
resting w = record { world = w; lock = null_lock }

module _ {S T A : Type 0} (refused : A) (body : M S T A) (w : World S T) (r : A × World S T)
    (e : body w ≡ some r) where
  -- a function that returns has its lock free again
  pub locked-resting : locked refused body (resting w) ≡ some (r.0, resting r.1)
  unfolding locked take_api_lock drop_api_lock require_write release_write attempts try_write
      try_release_write give_back
  locked-resting = ap (give_back (record { world = w; lock = lock_pack 0 true thread_num })) e

  pub unlocked_call-resting : unlocked_call refused body (resting w) ≡ some (r.0, resting r.1)
  unfolding unlocked_call take_api_lock drop_api_lock require_write release_write attempts try_write
      try_release_write keep_lock
  unlocked_call-resting = ap (keep_lock (resting w)) e
