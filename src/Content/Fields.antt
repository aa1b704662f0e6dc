-- ===== src/Content/Fields.antt =====
-- What the functions that read an entry say after those that write one.
use ni_fat.Base.{
  ℕ, ◌<◌, ◌≡◌, ◌≢◌, refl, sym, ap, arith, Bool, false, Bool-cases, inl, inr, ltb, lt→ltb, ltb→lt,
  if◌then◌else◌, List, none, some, Option-cases, get_elem?, length, get_elem?-set_self,
  get_elem?-set_ne,
}
use ni_fat.Strings.{ℤ, pos, negsuc}
use ni_fat.Fat.{cluster_bad}
use ni_fat.Layout.{DirectoryEntry}
use ni_fat.Content.{
  content_table_size, unknown, file, directory, Content, Table, in_table, content_at, fill_content,
  edit_content, setup_content,
}
use ni_fat.Content.Access.{
  field, get_content_data_ca, set_content_data_ca, get_content_size, get_content_name,
  get_content_root_ca, get_content_mode, get_content_type,
}
use ni_fat.Content.Allocation.{get_elem?-none}

-- a table of the size it has
abbrev pub IsWhole : {T : Type 0} → Table T → Type 0
IsWhole t = length t.contents ≡ content_table_size

in_table-pos : (n : ℕ) → n < content_table_size → in_table (pos n) ≡ some n
unfolding in_table
in_table-pos n h = rw (lt→ltb n content_table_size h) refl

module _ {T : Type 0} (t : Table T) (whole : IsWhole t) (f : Content → Content) (n : ℕ)
    (bound : n < content_table_size) where
  -- the entry that is changed, before and after
  changed :
      (c : Content) × (get_elem? t.contents n ≡ some c)
      × (get_elem? (edit_content f n t).contents n ≡ some (f c))
  unfolding edit_content
  changed = elim (Option-cases (get_elem? t.contents n)) [
    | inl missing ↦ absurd (get_elem?-none t.contents n missing (omega (arith, whole)))
    | inr (c, here) ↦ (
      c,
      here,
      rw (here, edit_content) (get_elem?-set_self t.contents n (f c) (omega (arith, whole))),
    )
  ]

  content_at-edit_content : content_at (edit_content f n t) (pos n) ≡ some (f changed.0)
  unfolding content_at
  content_at-edit_content = rw (in_table-pos n bound, content_at) changed.2

  field-edit_content :
      {A : Type 0}
      → (g : Content → A) (d : A)
      → field g d (content_at (edit_content f n t) (pos n)) ≡ g (f changed.0)
  unfolding field
  field-edit_content g d = ap (field g d) content_at-edit_content

  get_other : (m : ℕ) → m ≢ n → get_elem? (edit_content f n t).contents m ≡ get_elem? t.contents m
  unfolding edit_content
  get_other m other = elim (Option-cases (get_elem? t.contents n)) [
    | inl missing ↦ rw (missing, edit_content) refl
    | inr (c, here) ↦
        rw (here, edit_content) (get_elem?-set_ne t.contents (f c) (λ e. other (sym e)))
  ]

  content_at_other : (ci : ℤ) → ci ≢ pos n → content_at (edit_content f n t) ci ≡ content_at t ci
  unfolding content_at in_table
  content_at_other (negsuc m) other = refl
  content_at_other (pos m) other = elim (Bool-cases (ltb m content_table_size)) [
    | inl inside ↦ rw (inside, in_table, content_at) (get_other m (λ e. other (ap pos e)))
    | inr outside ↦ rw (outside, in_table, content_at) refl
  ]

module _ {T : Type 0} (t : Table T) where
  -- After `setup_content` of an index of the table with an entry, the functions answer with the fields
  -- of that entry, the mode and the kind that were given, and every other index has what it had.
  pub setup_content-fields :
      (n : ℕ) (is_dir : Bool) (name83 : List ℕ) (m : DirectoryEntry) (mode : ℕ)
      → IsWhole t
      → n < content_table_size
      → let later = (setup_content (pos n) is_dir name83 (some m) mode t).1 in
        (get_content_data_ca (pos n) later ≡ m.dca)
        × (get_content_root_ca (pos n) later ≡ m.rca)
        × (get_content_size (pos n) later ≡ m.file_size)
        × (get_content_name (pos n) later ≡ some m.file_name)
        × (get_content_mode (pos n) later ≡ mode)
        × (get_content_type (pos n) later ≡ (if is_dir then directory else file))
        × ((ci : ℤ) → ci ≢ pos n → content_at later ci ≡ content_at t ci)
  unfolding setup_content get_content_data_ca get_content_root_ca get_content_size get_content_name
      get_content_mode get_content_type fill_content
  setup_content-fields n is_dir name83 m mode whole bound =
      let fill = fill_content is_dir name83 (some m) mode in
      rw (in_table-pos n bound, setup_content)
        (
          field-edit_content t whole fill n bound (λ c. c.data_cluster) cluster_bad,
          field-edit_content t whole fill n bound (λ c. c.parent_cluster) cluster_bad,
          field-edit_content t whole fill n bound (λ c. c.meta.file_size) 0,
          field-edit_content t whole fill n bound (λ c. some c.meta.file_name) none,
          field-edit_content t whole fill n bound (λ c. c.mode) 0,
          field-edit_content t whole fill n bound (λ c. c.content_type) unknown,
          content_at_other t whole fill n bound,
        )

  outside_answer :
      (n ca : ℕ)
      → ltb n content_table_size ≡ false
      → get_content_data_ca (pos n) (set_content_data_ca (pos n) ca t).1
        ≡ elim (in_table (pos n)) [ none ↦ cluster_bad | some k ↦ ca ]
  unfolding get_content_data_ca set_content_data_ca in_table content_at field
  outside_answer n ca outside =
      rw (outside, in_table, content_at, get_content_data_ca, set_content_data_ca) refl

  -- The cluster that was set is the one that is read, for an index of the table; for any other, the
  -- bad cluster is read, whatever was to be set.
  pub get_content_data_ca-set_content_data_ca :
      (ci : ℤ) (ca : ℕ)
      → IsWhole t
      → get_content_data_ca ci (set_content_data_ca ci ca t).1
        ≡ elim (in_table ci) [ none ↦ cluster_bad | some n ↦ ca ]
  unfolding get_content_data_ca set_content_data_ca
  get_content_data_ca-set_content_data_ca (negsuc k) ca whole =
      unfold in_table in unfold content_at in unfold field in refl
  get_content_data_ca-set_content_data_ca (pos n) ca whole =
      elim (Bool-cases (ltb n content_table_size)) [
        | inl inside ↦
            let bound = ltb→lt n content_table_size inside in
            rw (in_table-pos n bound, set_content_data_ca)
              (field-edit_content t whole (λ c. record c { data_cluster = ca }) n bound
                (λ c. c.data_cluster) cluster_bad)
        | inr outside ↦ outside_answer n ca outside
      ]
