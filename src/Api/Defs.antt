-- ===== src/Api/Defs.antt =====
-- nifat32.c, the functions that a host calls: what they work on, the lock around each of them, and the
-- monad that they are written in. The static `_fs_data` is the argument `fi`, as in the other modules.
pub mod Lock
use ni_fat.Base.{ℕ, ◌/◌, ◌%◌, ◌==◌, Bool, true, false, ◌||◌, List, Option, none, some}
use ni_fat.Threading.{require_write, release_write, quiet, thread_num}
use ni_fat.State.{FatData, State, Driver}
use ni_fat.Errors.{register_error}
use ni_fat.Fat.{cluster_bad, cluster_end}
use ni_fat.Layout.{DirectoryEntry, JournalEntry}
use ni_fat.Journal.{Logged}
use ni_fat.Content.{Table}
use ni_fat.Entry.Operations.{Index}

-- what the functions work on under their lock: the file system with its journal, and the table of open
-- content with the trees `T`
pub record World (S T : Type 0) : Type 0 where
  pub logged : Logged S
  pub table : Table T

-- with `_fs_api_lock`
pub record Api (S T : Type 0) : Type 0 where
  pub world : World S T
  pub lock : ℕ

-- The device, the trees of src/ecache.c, what uninitialised variables hold (a cluster's buffer, a
-- journal entry, a directory entry), and the rounds that each walk is followed for.
pub record Host (S T : Type 0) : Type 0 where
  pub driver : Driver S
  pub index : Index T
  pub ecache_free : ℕ → T → T
  pub old : List ℕ
  pub places : ℕ → JournalEntry
  pub entry : DirectoryEntry
  pub fuel : ℕ

-- `none` is no end in the given rounds, or a fault: a null pointer that is followed.
abbrev pub M : Type 0 → Type 0 → Type 0 → Type 0
M S T A = World S T → Option (A × World S T)

infixl 5 ◌>>=◌ ◌>>◌
abbrev pub ◌>>=◌ : {S T A B : Type 0} → M S T A → (A → M S T B) → M S T B
◌>>=◌ m f w = elim (m w) [ none ↦ none | some (a, w') ↦ f a w' ]

abbrev pub ◌>>◌ : {S T A B : Type 0} → M S T A → M S T B → M S T B
m >> k = m >>= λ _. k

abbrev pub pure : {S T A : Type 0} → A → M S T A
pure a w = some (a, w)

abbrev pub fault : {S T A : Type 0} → M S T A
fault w = none

-- a value of the world
abbrev pub asks : {S T A : Type 0} → (World S T → A) → M S T A
asks f w = some (f w, w)

-- the functions of the other modules
abbrev pub put_state : {S T A : Type 0} → World S T → A × State S → A × World S T
put_state w r = (r.0, record w { logged = record w.logged { state = r.1 } })

abbrev pub on_state : {S T A : Type 0} → (State S → A × State S) → M S T A
on_state f w = some (put_state w (f w.logged.state))

abbrev pub bounded_state : {S T A : Type 0} → (State S → Option (A × State S)) → M S T A
bounded_state f w = elim (f w.logged.state) [ none ↦ none | some r ↦ some (put_state w r) ]

abbrev pub on_table : {S T A : Type 0} → (Table T → A × Table T) → M S T A
on_table f w = let (a, t) = f w.table in some (a, record w { table = t })

abbrev pub on_logged : {S T A : Type 0} → (Logged S → Option (A × Logged S)) → M S T A
on_logged f w = elim (f w.logged) [ none ↦ none | some (a, l) ↦ some (a, record w { logged = l }) ]

-- those that change the trees as well
abbrev pub on_trees : {S T A : Type 0} → (T → Logged S → Option ((A × T) × Logged S)) → M S T A
on_trees f w = elim (f w.table.trees w.logged) [
  | none ↦ none
  | some ((a, trees), l) ↦ some (a, record { logged = l; table = record w.table { trees = trees } })
]

-- a pointer that must not be null
abbrev pub given : {S T A : Type 0} → Option A → M S T A
given none w = none
given (some a) w = some (a, w)

-- R_MODE, W_MODE and CR_MODE of the low half of a mode, the target in its high half
unfoldable pub is_read_mode : ℕ → Bool
is_read_mode mode = mode % 2 == 1

unfoldable pub is_write_mode : ℕ → Bool
is_write_mode mode = mode / 2 % 2 == 1

unfoldable pub is_create_mode : ℕ → Bool
is_create_mode mode = mode / 4 % 2 == 1

unfoldable pub mode_target : ℕ → ℕ
mode_target mode = mode / 16 % 16

abbrev pub file_target : ℕ
file_target = 1

-- DF_MODE
abbrev pub default_mode : ℕ
default_mode = 3

-- `is_cluster_end(ca) || is_cluster_bad(ca)`
unfoldable pub is_over : ℕ → Bool
is_over ca = ca == cluster_end || ca == cluster_bad

-- FS_API_LOCK_OR_RETURN
unfoldable pub take_api_lock : {S T : Type 0} → Api S T → Bool × Api S T
take_api_lock a =
    let got = require_write quiet a.lock thread_num in (got.taken, record a { lock = got.word })

-- THR_release_write of FS_API_RETURN
unfoldable pub drop_api_lock : {S T : Type 0} → Api S T → Api S T
drop_api_lock a = record a { lock = (release_write 1 quiet a.lock thread_num).word }

-- what a function returns, with the lock given back
unfoldable pub give_back :
    {S T A : Type 0} → Api S T → Option (A × World S T) → Option (A × Api S T)
give_back a none = none
give_back a (some (r, w)) = some (r, drop_api_lock (record a { world = w }))

-- A function between FS_API_LOCK_OR_RETURN(refused) and its FS_API_RETURNs, whose values are computed
-- before the lock is given back.
unfoldable pub locked : {S T A : Type 0} → A → M S T A → Api S T → Option (A × Api S T)
locked refused body a =
    let (held, a1) = take_api_lock a in
    elim held [ false ↦ some (refused, a1) | true ↦ give_back a1 (body a1.world) ]

unfoldable pub keep_lock :
    {S T A : Type 0} → Api S T → Option (A × World S T) → Option (A × Api S T)
keep_lock a none = none
keep_lock a (some (r, w)) = some (r, record a { world = w })

-- FS_API_RETURN of a call: the lock is given back first.
unfoldable pub unlocked_call : {S T A : Type 0} → A → M S T A → Api S T → Option (A × Api S T)
unlocked_call refused body a =
    let (held, a1) = take_api_lock a in
    elim held [ false ↦ some (refused, a1) | true ↦ keep_lock (drop_api_lock a1) (body a1.world) ]

module _ {S T : Type 0} (h : Host S T) (fi : FatData) where
  -- an error that is registered
  unfoldable pub note : ℕ → State S → State S
  note code s = (register_error h.driver fi code s).1

  unfoldable pub noted : ℕ → M S T (Unit {0})
  noted code w =
      some (tt, record w { logged = record w.logged { state = note code w.logged.state } })
