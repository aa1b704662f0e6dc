-- ===== src/Content/Access.antt =====
-- src/ctable.c, the functions that read an entry, set its cluster, build its tree or give it back.
use ni_fat.Base.{ℕ, zero, suc, if◌then◌else◌, List, Option, none, some, get_elem?, drop}
use ni_fat.Strings.{ℤ, pos, memcpy, strncpy}
use ni_fat.Fat.{cluster_bad}
use ni_fat.Content.{
  content_table_size, ContentType, unknown, file, directory, empty, is_empty, Content, Table,
  take_content_lock, drop_content_lock, clear_content, in_table, content_at, text, edit_content,
}

-- What the table calls: `ecache_free`, and `entry_index`, which gives the tree of a cluster.
pub record Trees (T : Type 0) : Type 0 where
  pub ecache_free : ℕ → T → T
  pub entry_index : ℕ → Option ℕ → T → Option ℕ × T

-- a field, or what the functions answer without one
unfoldable pub field {ℓ} : {A : Type ℓ} → (Content → A) → A → Option Content → A
field f d none = d
field f d (some c) = f c

unfoldable pub get_content_data_ca : {T : Type 0} → ℤ → Table T → ℕ
get_content_data_ca ci t = field (λ c. c.data_cluster) cluster_bad (content_at t ci)

unfoldable pub set_content_data_ca : {T : Type 0} → ℤ → ℕ → Table T → ℕ × Table T
set_content_data_ca ci ca t = elim (in_table ci) [
  | none ↦ (cluster_bad, t)
  | some n ↦ (1, edit_content (λ c. record c { data_cluster = ca }) n t)
]

unfoldable pub get_content_size : {T : Type 0} → ℤ → Table T → ℕ
get_content_size ci t = field (λ c. c.meta.file_size) 0 (content_at t ci)

unfoldable pub get_content_name : {T : Type 0} → ℤ → Table T → Option (List ℕ)
get_content_name ci t = field (λ c. some c.meta.file_name) none (content_at t ci)

unfoldable pub get_content_root_ca : {T : Type 0} → ℤ → Table T → ℕ
get_content_root_ca ci t = field (λ c. c.parent_cluster) cluster_bad (content_at t ci)

unfoldable pub get_content_mode : {T : Type 0} → ℤ → Table T → ℕ
get_content_mode ci t = field (λ c. c.mode) 0 (content_at t ci)

unfoldable pub get_content_type : {T : Type 0} → ℤ → Table T → ContentType
get_content_type ci t = field (λ c. c.content_type) unknown (content_at t ci)

unfoldable pub get_content_ecache : {T : Type 0} → ℤ → Table T → Option ℕ
get_content_ecache ci t = field (λ c. c.root) none (content_at t ci)

-- `cinfo_t`
pub record Info : Type 0 where
  pub full_name : List ℕ
  pub name : List ℕ
  pub extension : List ℕ
  pub size : ℕ
  pub type : ℕ

-- STAT_FILE and STAT_DIR
abbrev pub stat_file : ℕ
stat_file = 1

abbrev pub stat_dir : ℕ
stat_dir = 2

-- the switch of `stat_content`
unfoldable pub describe : Content → Info → ContentType → ℕ × Info
describe c info directory =
    (1, record info { full_name = memcpy info.full_name c.names 11; size = 0; type = stat_dir })
describe c info file = (
  1,
  record info {
    full_name = memcpy info.full_name c.meta.file_name 11;
    name = strncpy info.name (text c.names) 8;
    extension = strncpy info.extension (text (drop 9 c.names)) 3;
    type = stat_file;
  },
)
describe c info unknown = (0, info)
describe c info empty = (0, info)

-- `stat_content`, which does not test its index: `none` for an index that is not in the table
unfoldable pub stat_content : {T : Type 0} → ℤ → Info → Table T → Option (ℕ × Info)
stat_content ci info t = field (λ c. some (describe c info c.content_type)) none (content_at t ci)

module _ {T : Type 0} (trees : Trees T) where
  unfoldable pub free_tree : Option ℕ → T → T
  free_tree none s = s
  free_tree (some root) s = trees.ecache_free root s

  -- `index_content` of one entry
  unfoldable pub index_entry : ℕ → Content → Table T → Table T
  index_entry n c t =
      let (root, s) = trees.entry_index c.data_cluster c.root (free_tree c.root t.trees) in
      edit_content (λ e. record e { root = root }) n (record t { trees = s })

  unfoldable pub index_content : ℤ → Table T → ℕ × Table T
  index_content ci t = elim (in_table ci) [
    | none ↦ (0, t)
    | some n ↦ (1, elim (get_elem? t.contents n) [ none ↦ t | some c ↦ index_entry n c t ])
  ]

  -- what `destroy_content` does with the lock held
  unfoldable pub clear_entry : ℕ → Content → Table T → Table T
  clear_entry n c t = edit_content clear_content n (record t { trees = free_tree c.root t.trees })

  unfoldable pub destroy_entry : ℕ → Option Content → Table T → ℕ × Table T
  destroy_entry n none t = (0, t)
  destroy_entry n (some c) t =
      let (held, t1) = take_content_lock t in
      if is_empty c.content_type
      then (0, t)
      else if held
      then (1, drop_content_lock (clear_entry n c t1))
      else (0, t1)

  unfoldable pub destroy_content : ℤ → Table T → ℕ × Table T
  destroy_content ci t = elim (in_table ci) [
    | none ↦ (0, t)
    | some n ↦ destroy_entry n (get_elem? t.contents n) t
  ]

  -- the loop of `ctable_destroy`, with `n` entries left from `i` on
  unfoldable pub destroy_from : ℕ → ℕ → Table T → Table T
  destroy_from i zero t = t
  destroy_from i (suc n) t = destroy_from (suc i) n (destroy_content (pos i) t).1

  unfoldable pub ctable_destroy : Table T → ℕ × Table T
  ctable_destroy t = (1, destroy_from 0 content_table_size t)
