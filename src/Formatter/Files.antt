-- ===== src/Formatter/Files.antt =====
-- formatter/nifat32formatter.c: the files that the formatter copies into a volume. The volume's file,
-- behind `pwrite`, `lseek`, `read` and `write`, is a parameter (Posix).
use ni_fat.Base.{
  ℕ, zero, suc, ◌+◌, ◌-◌, ◌*◌, ◌==◌, ltb, if◌then◌else◌, Bool, true, false, ◌&&◌, List, [], ◌∷◌,
  ◌++◌, length, get_or, take, drop, set, replicate, Option, none, some, u32,
}
use ni_fat.Hamming.Buffer.{le32, packed}
use ni_fat.Checksum.{murmur3}
use ni_fat.Strings.{to_upper}
use ni_fat.Names.{dot, space}

abbrev pub bytes_per_sector : ℕ
bytes_per_sector = 512

-- CLUSTER_SIZE
abbrev pub cluster_bytes : ℕ
cluster_bytes = 4096

abbrev pub fat_entry_end : ℕ
fat_entry_end = 0x0fffffff

-- Writing at an offset, with the count of bytes that were written, and reading there.
pub record Posix (S : Type 0) : Type 0 where
  pub pwrite : S → ℕ → List ℕ → ℕ × S
  pub pread : S → ℕ → ℕ → List ℕ

-- what the functions work on: the file, `fat_table` and `last_alloc`
pub record Volume (S : Type 0) : Type 0 where
  pub file : S
  pub table : List ℕ
  pub last_alloc : ℕ

-- what `readdir` and `stat` give: a name, and a directory, or a file with its bytes
pub data Kind : Type 0 where
  folder : Kind
  regular : List ℕ → Kind

pub record Source : Type 0 where
  pub d_name : List ℕ
  pub kind : Kind

-- `strrchr(name, '.') - name`
unfoldable pub last_dot : List ℕ → Option ℕ
last_dot [] = none
last_dot (c ∷ cs) = elim (last_dot cs) [
  | some i ↦ some (suc i)
  | none ↦ if c == dot then some 0 else none
]

-- `base` and `ext`, without their terminators
unfoldable pub base_and_ext : List ℕ → Option ℕ → List ℕ × List ℕ
base_and_ext name none = (take 8 name, [])
base_and_ext name (some zero) = (take 8 name, [])
base_and_ext name (some (suc i)) =
    (take (if ltb 8 (suc i) then 8 else suc i) name, take 3 (drop (suc i + 1) name))

-- a loop that fills `n` bytes
unfoldable pub fill_upper : ℕ → List ℕ → List ℕ
fill_upper zero xs = []
fill_upper (suc n) [] = space ∷ fill_upper n []
fill_upper (suc n) (c ∷ cs) = to_upper c ∷ fill_upper n cs

-- the eleven bytes of `_to_83_name`
unfoldable pub to_83_name : List ℕ → List ℕ
to_83_name name =
    let (base, ext) = base_and_ext name (last_dot name) in fill_upper 8 base ++ fill_upper 3 ext

-- `directory_entry_t` of the formatter, as its bytes; the checksum is over those with a checksum of 0
unfoldable pub entry_bytes : List ℕ → ℕ → ℕ → ℕ → List ℕ
entry_bytes name attributes cluster file_size =
    let bare = name ++ (le32 (murmur3 name 0) ++ (attributes ∷ (le32 cluster ++ le32 file_size))) in
    bare ++ le32 (murmur3 (bare ++ le32 0) 0)

-- the name of the entry behind the last, which begins with ENTRY_END
abbrev pub end_name : List ℕ
end_name = replicate 11 0

-- the first of `n` clusters from `c` on that is free
unfoldable pub first_free : ℕ → ℕ → List ℕ → Option ℕ
first_free zero c table = none
first_free (suc n) c table = elim (get_or table c 1 == 0) [
  | true ↦ some c
  | false ↦ first_free n (c + 1) table
]

-- the search of both functions, and the cluster that it takes as the end of a chain
unfoldable pub take_cluster : {S : Type 0} → ℕ → Volume S → Option (ℕ × Volume S)
take_cluster tc v = elim (first_free (tc - v.last_alloc) v.last_alloc v.table) [
  | none ↦ none
  | some c ↦ some (c, record v { table = set v.table c fat_entry_end; last_alloc = c + 1 })
]

-- the place of a cluster
unfoldable pub cluster_offset : ℕ → ℕ → ℕ
cluster_offset start c = u32 (start + (c + 0x100000000 - 2) * cluster_bytes)

-- the entries of a new directory
unfoldable pub new_directory_bytes : ℕ → List ℕ
new_directory_bytes c =
    entry_bytes (to_83_name (dot ∷ [])) 0x10 c 0
    ++ (entry_bytes (to_83_name (dot ∷ dot ∷ [])) 0x10 0 0 ++ entry_bytes end_name 0x10 0 0)

-- what `_copy_file` has copied: the first and the last cluster, and the size
pub record Copied : Type 0 where
  pub start_cluster : ℕ
  pub prev_cluster : Option ℕ
  pub file_size : ℕ

-- the link to a new cluster
unfoldable pub link : ℕ → Copied → List ℕ → List ℕ
link c k table = elim k.prev_cluster [ none ↦ table | some p ↦ set table p c ]

unfoldable pub copied_part : ℕ → ℕ → Copied → Copied
copied_part c n k = record {
  start_cluster = elim k.prev_cluster [ none ↦ c | some p ↦ k.start_cluster ];
  prev_cluster = some c;
  file_size = k.file_size + n;
}

module _ {S : Type 0} (f : Posix S) where
  -- `_create_directory`: the cluster, whether it went well; `malloc` finds room
  unfoldable pub create_directory : ℕ → ℕ → Volume S → Option ℕ × Volume S
  create_directory start tc v = elim (take_cluster tc v) [
    | none ↦ (none, v)
    | some (c, v1) ↦
        let bytes = packed (new_directory_bytes c) in
        let (n, t) = f.pwrite v1.file (cluster_offset start c) bytes in
        (if n == length bytes then some c else none, record v1 { file = t })
  ]

  -- The loop of `_copy_file` over what is left of the file, `none` for its error. A round takes a
  -- cluster's bytes.
  unfoldable pub copy_parts : ℕ → ℕ → ℕ → List ℕ → Copied → Volume S → Option Copied × Volume S
  copy_parts start tc zero bytes k v = (some k, v)
  copy_parts start tc (suc fuel) [] k v = (some k, v)
  copy_parts start tc (suc fuel) (b ∷ bs) k v = elim (take_cluster tc v) [
    | none ↦ (none, v)
    | some (c, v1) ↦
        let part = take cluster_bytes (b ∷ bs) in
        let (n, t) = f.pwrite v1.file (cluster_offset start c) part in
        let v2 : Volume S = record v1 { file = t; table = link c k v1.table } in
        elim (n == length part) [
          | false ↦ (none, v2)
          | true ↦
              copy_parts start tc fuel (drop cluster_bytes (b ∷ bs)) (copied_part c (length part) k)
                v2
        ]
  ]

  -- `_copy_file`; a file has no more rounds than bytes
  unfoldable pub copy_file : ℕ → ℕ → List ℕ → Volume S → Option Copied × Volume S
  copy_file start tc bytes v =
      copy_parts start tc (length bytes) bytes
        (record { start_cluster = 0; prev_cluster = none; file_size = 0 }) v

  -- an entry of the source directory, with the entries in front of it; what fails is left out
  unfoldable pub add_folder : List ℕ → List ℕ → Option ℕ × Volume S → List ℕ × Volume S
  add_folder name entries (none, v) = (entries, v)
  add_folder name entries (some c, v) = (entries ++ entry_bytes (to_83_name name) 0x10 c 0, v)

  unfoldable pub add_regular : List ℕ → List ℕ → Option Copied × Volume S → List ℕ × Volume S
  add_regular name entries (none, v) = (entries, v)
  add_regular name entries (some k, v) =
      (entries ++ entry_bytes (to_83_name name) 0x20 k.start_cluster (u32 k.file_size), v)

  unfoldable pub add_source : ℕ → ℕ → List ℕ → Kind → List ℕ → Volume S → List ℕ × Volume S
  add_source start tc name folder entries v = add_folder name entries (create_directory start tc v)
  add_source start tc name (regular bytes) entries v =
      add_regular name entries (copy_file start tc bytes v)

  -- "." and ".."
  unfoldable pub is_dots : List ℕ → Bool
  is_dots (c ∷ []) = c == dot
  is_dots (c ∷ e ∷ []) = c == dot && e == dot
  is_dots other = false

  -- the loop over the source directory
  unfoldable pub add_sources : ℕ → ℕ → List Source → List ℕ → Volume S → List ℕ × Volume S
  add_sources start tc [] entries v = (entries, v)
  add_sources start tc (s ∷ rest) entries v = elim (is_dots s.d_name) [
    | true ↦ add_sources start tc rest entries v
    | false ↦
        let (entries', v') = add_source start tc s.d_name s.kind entries v in
        add_sources start tc rest entries' v'
  ]

  -- `_copy_files_to_fs`, from where the root directory was read: it is empty, as `main` wrote it, and
  -- its entries fit a cluster
  unfoldable pub copy_files_to_fs : List Source → ℕ → ℕ → Volume S → Bool × Volume S
  copy_files_to_fs sources start tc v =
      let old = f.pread v.file start cluster_bytes in
      let (entries, v') = add_sources start tc sources [] v in
      let all = entries ++ entry_bytes end_name 0 0 0 in
      let root = all ++ drop (length all) old in
      let (n, t) = f.pwrite v'.file start (take cluster_bytes (packed root)) in
      (n == cluster_bytes, record v' { file = t })
