-- ===== src/Fat/Alone.antt =====
-- src/fat.c: the lock, the cache and the bitmap, as a thread that runs alone leaves them.
use ni_fat.Base.{ℕ, ◌==◌, ◌≡◌, refl, true, false}
use ni_fat.Base.{if◌then◌else◌, List, Option, none, some}
use ni_fat.Threading.{
  null_lock, thread_num, lock_pack, require_write, release_write, attempts, try_write,
  try_release_write,
}
use ni_fat.State.{Core}
use ni_fat.Disk.Sectors.{at_rest}
use ni_fat.Fatmap.{
  clear_mark, set_mark, change, fatmap_set, fatmap_unset, take_fatmap_lock, drop_fatmap_lock,
  set_bitmap,
}
use ni_fat.Fat.{cached, cache_value, set_fat, mark_cluster, take_fat_lock, drop_fat_lock}

abbrev pub held_lock : ℕ
held_lock = lock_pack 0 true thread_num

-- the bitmap and the cache after a value was stored
pub marked : ℕ → ℕ → Option (List ℕ) → Option (List ℕ)
marked ca value none = none
marked ca value (some b) = some (if value == 0 then clear_mark ca b else set_mark ca b)

abbrev pub updated : {S : Type 0} → ℕ → ℕ → Core S → Core S
updated ca value c = record c { fat = cached ca value c.fat; bitmap = marked ca value c.bitmap }

module _ {S : Type 0} (c : Core S) (e m a : ℕ) where
  pub take_fat_lock-at_rest :
      take_fat_lock (at_rest c e m null_lock a) ≡ (true, at_rest c e m held_lock a)
  unfolding take_fat_lock require_write attempts try_write
  take_fat_lock-at_rest = refl

  pub drop_fat_lock-at_rest : drop_fat_lock (at_rest c e m held_lock a) ≡ at_rest c e m null_lock a
  unfolding drop_fat_lock release_write attempts try_release_write
  drop_fat_lock-at_rest = refl

module _ {S : Type 0} (e f a : ℕ) where
  change-at_rest :
      (c : Core S) (g : List ℕ → Option (List ℕ)) (b : List ℕ)
      → (change g (at_rest (record c { bitmap = some b }) e null_lock f a)).1
        ≡ at_rest (record c { bitmap = g b }) e null_lock f a
  unfolding change take_fatmap_lock drop_fatmap_lock set_bitmap require_write release_write attempts
      try_write try_release_write
  change-at_rest c g b = refl

  change-none :
      (c : Core S) (g : List ℕ → Option (List ℕ))
      → (change g (at_rest (record c { bitmap = none }) e null_lock f a)).1
        ≡ at_rest (record c { bitmap = none }) e null_lock f a
  unfolding change
  change-none c g = refl

  mark_bitmap :
      (c : Core S) (ca value : ℕ) (o : Option (List ℕ))
      → mark_cluster ca value (at_rest (record c { bitmap = o }) e null_lock f a)
        ≡ at_rest (record c { bitmap = marked ca value o }) e null_lock f a
  unfolding mark_cluster fatmap_set fatmap_unset marked
  mark_bitmap c ca value none =
      elim (value == 0)
        as (λ t.
          (if t
            then (change (λ b. some (clear_mark ca b))
                (at_rest (record c { bitmap = none }) e null_lock f a)).1
            else (change (λ b. some (set_mark ca b))
                (at_rest (record c { bitmap = none }) e null_lock f a)).1)
          ≡ at_rest (record c { bitmap = none }) e null_lock f a) [
            | true ↦ change-none c (λ b. some (clear_mark ca b))
            | false ↦ change-none c (λ b. some (set_mark ca b))
          ]
  mark_bitmap c ca value (some b) =
      elim (value == 0)
        as (λ t.
          (if t
            then (change (λ b. some (clear_mark ca b))
                (at_rest (record c { bitmap = some b }) e null_lock f a)).1
            else (change (λ b. some (set_mark ca b))
                (at_rest (record c { bitmap = some b }) e null_lock f a)).1)
          ≡ at_rest (record c { bitmap = some (if t then clear_mark ca b else set_mark ca b) }) e
              null_lock f a) [
                | true ↦ change-at_rest c (λ b. some (clear_mark ca b)) b
                | false ↦ change-at_rest c (λ b. some (set_mark ca b)) b
              ]

  -- `_fat` and `_bitmap` after a value was stored
  pub record_value :
      (c : Core S) (ca value : ℕ)
      → mark_cluster ca value (cache_value ca value (at_rest c e null_lock f a))
        ≡ at_rest (updated ca value c) e null_lock f a
  unfolding cache_value set_fat
  record_value c ca value = mark_bitmap (record c { fat = cached ca value c.fat }) ca value c.bitmap
