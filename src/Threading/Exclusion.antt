-- ===== src/Threading/Exclusion.antt =====
-- std/threading.c: the steps of several threads on one lock.
use ni_fat.Base.{ℕ, suc, ◌+◌, ◌≤◌, ◌<◌, ◌≡◌, arith, true, false, List, [], ◌∷◌, length}
use ni_fat.Threading.{swap, try_read, try_release_read, try_write, try_release_write}
use ni_fat.Threading.{lock_pack, null_lock, no_owner}

-- The word, with the threads that hold the lock: a count of readers, and the writers' numbers.
pub record Shared : Type 0 where
  pub word : ℕ
  pub readers : ℕ
  pub writers : List ℕ

-- A successful compare-and-swap replaces the very word that its attempt was computed from.
pub data Step (s : Shared) : Shared → Type 0 where
  read :
      {w : ℕ} → try_read s.word ≡ swap w → Step s (record s { word = w; readers = s.readers + 1 })
  unread :
      {w r : ℕ}
      → s.readers ≡ suc r
      → try_release_read s.word ≡ swap w
      → Step s (record s { word = w; readers = r })
  write :
      (o : ℕ) {w : ℕ}
      → o < 0x10000
      → try_write o s.word ≡ swap w
      → Step s (record s { word = w; writers = o ∷ s.writers })
  unwrite :
      (o : ℕ) {w : ℕ} {os : List ℕ}
      → s.writers ≡ o ∷ os
      → try_release_write o s.word ≡ swap w
      → Step s (record s { word = w; writers = os })

pub data Reach : Shared → Type 0 where
  unlocked : Reach (record { word = null_lock; readers = 0; writers = [] })
  next : {s t : Shared} → Reach s → Step s t → Reach t

-- what the word says of the holders
IsHeld : ℕ → ℕ → List ℕ → Type 0
IsHeld word readers [] = (readers ≤ 255) × (word ≡ lock_pack readers false no_owner)
IsHeld word readers (o ∷ []) = (readers ≡ 0) × (o < 0x10000) × (word ≡ lock_pack 0 true o)
IsHeld word readers (o ∷ p ∷ os) = ⊥

Step-IsHeld :
    (w r : ℕ) (os : List ℕ) {t : Shared}
    → Step (record { word = w; readers = r; writers = os }) t
    → IsHeld w r os
    → IsHeld t.word t.readers t.writers
unfolding IsHeld try_read try_release_read try_write try_release_write
Step-IsHeld w r [] (read e) h = ground arith
Step-IsHeld w r [] (unread p e) h = ground arith
Step-IsHeld w r [] (write o k e) h = ground arith
Step-IsHeld w r [] (unwrite o p e) h = ground arith
Step-IsHeld w r (x ∷ []) (read e) h = ground arith
Step-IsHeld w r (x ∷ []) (unread p e) h = ground arith
Step-IsHeld w r (x ∷ []) (write o k e) h = ground arith
Step-IsHeld w r (x ∷ []) (unwrite o {os = []} p e) h = ground arith
Step-IsHeld w r (x ∷ []) (unwrite o {os = y ∷ ys} p e) h = cc
Step-IsHeld w r (x ∷ y ∷ ys) st h = absurd h

Reach-IsHeld : {s : Shared} → Reach s → IsHeld s.word s.readers s.writers
unfolding IsHeld
Reach-IsHeld unlocked = omega arith
Reach-IsHeld (next {s} r st) = Step-IsHeld s.word s.readers s.writers st (Reach-IsHeld r)

-- However the threads' successful swaps interleave, from the unlocked word on: at most one thread
-- holds the lock for writing, none holds it for reading meanwhile, and at most 255 hold it for
-- reading.
pub Reach-exclusive :
    {s : Shared}
    → Reach s
    → (length s.writers ≤ 1) × (0 < length s.writers → s.readers ≡ 0) × (s.readers ≤ 255)
unfolding IsHeld
Reach-exclusive {s} r = held s.word s.readers s.writers (Reach-IsHeld r)
  where
    held :
        (word readers : ℕ) (writers : List ℕ)
        → IsHeld word readers writers
        → (length writers ≤ 1) × (0 < length writers → readers ≡ 0) × (readers ≤ 255)
    held w r [] h = omega arith
    held w r (o ∷ []) h = omega arith
    held w r (o ∷ p ∷ os) h = absurd h
