-- ===== src/Content.antt =====
-- src/ctable.c: the table of open files and directories. A content index is an `int`; the trees that
-- the entries refer to are those of src/ecache.c, which the table only frees and has built.
pub mod Access
pub mod Allocation
pub mod Fields
use ni_fat.Base.{
  ℕ, zero, suc, ◌+◌, ◌==◌, ltb, if◌then◌else◌, Bool, true, false, List, [], ◌∷◌, ◌++◌, Option, none,
  some, get_elem?, set, take, drop, replicate,
}
use ni_fat.Strings.{ℤ, pos, negsuc, memcpy, strncpy}
use ni_fat.Names.{unpack_83_base, unpack_83_ext}
use ni_fat.Threading.{quiet, require_write, release_write, thread_num}
use ni_fat.Fat.{cluster_bad}
use ni_fat.Layout.{DirectoryEntry}

-- CONTENT_TABLE_SIZE
abbrev pub content_table_size : ℕ
content_table_size = 50

-- `content_type_t`
pub data ContentType : Type 0 where
  unknown : ContentType
  file : ContentType
  directory : ContentType
  empty : ContentType

unfoldable pub is_empty : ContentType → Bool
is_empty unknown = false
is_empty file = false
is_empty directory = false
is_empty empty = true

-- `content_t`. The names are the 13 bytes of the union: a directory's name, or a file's in nine bytes
-- and its extension in four. A tree is known by the number of its root, NO_ECACHE is `none`.
pub record Content : Type 0 where
  pub names : List ℕ
  pub root : Option ℕ
  pub parent_cluster : ℕ
  pub data_cluster : ℕ
  pub meta : DirectoryEntry
  pub content_type : ContentType
  pub mode : ℕ

-- `_content_table`, `_content_lock`, and the memory `T` that the trees are in
pub record Table (T : Type 0) : Type 0 where
  pub contents : List Content
  pub lock : ℕ
  pub trees : T

unfoldable pub take_content_lock : {T : Type 0} → Table T → Bool × Table T
take_content_lock t =
    let got = require_write quiet t.lock thread_num in (got.taken, record t { lock = got.word })

unfoldable pub drop_content_lock : {T : Type 0} → Table T → Table T
drop_content_lock t = record t { lock = (release_write 1 quiet t.lock thread_num).word }

-- `ctable_init`, an entry at a time
unfoldable pub clear_content : Content → Content
clear_content c = record c { content_type = empty; root = none }

unfoldable pub clear_all : List Content → List Content
clear_all [] = []
clear_all (c ∷ cs) = clear_content c ∷ clear_all cs

unfoldable pub ctable_init : {T : Type 0} → Table T → Table T
ctable_init t = record t { contents = clear_all t.contents }

-- `_init_content`
unfoldable pub init_content : Content → Content
init_content c = record c { content_type = unknown; parent_cluster = cluster_bad; root = none }

-- the loop of `alloc_ci`: the first empty entry, and the table with it in use
unfoldable pub take_empty : List Content → Option (ℕ × List Content)
take_empty [] = none
take_empty (c ∷ cs) =
    let later = take_empty cs in
    if is_empty c.content_type
    then some (0, init_content c ∷ cs)
    else elim later [ none ↦ none | some p ↦ some (suc p.0, c ∷ p.1) ]

unfoldable pub allocate : {T : Type 0} → Option (ℕ × List Content) → Table T → ℤ × Table T
allocate none t = (negsuc 0, drop_content_lock t)
allocate (some p) t = (pos p.0, drop_content_lock (record t { contents = p.1 }))

-- `alloc_ci`
unfoldable pub alloc_ci : {T : Type 0} → Table T → ℤ × Table T
alloc_ci t =
    let (held, t1) = take_content_lock t in
    if held then allocate (take_empty t1.contents) t1 else (negsuc 0, t1)

-- The guard of the functions below: the index of an entry.
unfoldable pub in_table : ℤ → Option ℕ
in_table (pos n) = if ltb n content_table_size then some n else none
in_table (negsuc n) = none

unfoldable pub content_at : {T : Type 0} → Table T → ℤ → Option Content
content_at t ci = elim (in_table ci) [ none ↦ none | some n ↦ get_elem? t.contents n ]

-- the bytes in front of a terminator
unfoldable pub text : List ℕ → List ℕ
text [] = []
text (c ∷ cs) = let rest = text cs in if c == 0 then [] else c ∷ rest

unfoldable pub name_of_directory : List ℕ → List ℕ → List ℕ
name_of_directory name83 names = strncpy names (text name83) 11

unfoldable pub name_of_file : List ℕ → List ℕ → List ℕ
name_of_file name83 names =
    let base = strncpy names (text (unpack_83_base name83)) 8 in
    take 9 base ++ strncpy (drop 9 base) (text (unpack_83_ext name83)) 3

-- `setup_content` of one entry
unfoldable pub fill_content : Bool → List ℕ → Option DirectoryEntry → ℕ → Content → Content
fill_content is_dir name83 meta mode c =
    let named : Content = record c {
      content_type = if is_dir then directory else file;
      names = if is_dir then name_of_directory name83 c.names else name_of_file name83 c.names;
      mode = mode;
    } in
    elim meta [
      | none ↦ named
      | some m ↦ record named { meta = m; parent_cluster = m.rca; data_cluster = m.dca }
    ]

-- a change of one entry
unfoldable pub edit_content : {T : Type 0} → (Content → Content) → ℕ → Table T → Table T
edit_content f n t = elim (get_elem? t.contents n) [
  | none ↦ t
  | some c ↦ record t { contents = set t.contents n (f c) }
]

unfoldable pub setup_content :
    {T : Type 0} → ℤ → Bool → List ℕ → Option DirectoryEntry → ℕ → Table T → ℕ × Table T
setup_content ci is_dir name83 meta mode t = elim (in_table ci) [
  | none ↦ (0, t)
  | some n ↦ (1, edit_content (fill_content is_dir name83 meta mode) n t)
]
