-- ===== src/Entry/Slots.antt =====
-- The entries of one cluster: what is stored, and what a search finds there.
use ni_fat.Base.{
  ℕ, suc, ◌+◌, ◌≡◌, ◌≢◌, refl, ap, subst, ◌∙◌, arith, Bool, true, false, not, ◌||◌, ◌==◌,
  if◌then◌else◌, Bool-cases, inl, inr, List, [], ◌∷◌, Option, none, some, All, ◌++◌, take, get_or,
  set, ne→==,
}
use mathlib.Core.Bool.{true≢false}
use ni_fat.Layout.{DirectoryEntry}
use ni_fat.Journal.{Logged}
use ni_fat.Entry.{entry_sum, validate_entry, first_byte, entry_end, entry_free, scan_entries}
use ni_fat.Entry.Operations.{Meta, copy_found, is_sought, search_handler}
use ni_fat.Entry.Growth.{is_open, seal, mark_end, fill_slot}

same : (n : ℕ) → (n == n) ≡ true
same n = ground arith

-- An entry whose checksum is 0, as `create_entry` leaves it, is valid once `entry_add` has stored it;
-- validation changes nothing.
pub validate_entry-seal :
    (ca : ℕ) (m : DirectoryEntry) → m.checksum ≡ 0 → validate_entry (seal ca m) ≡ (true, seal ca m)
unfolding validate_entry seal
validate_entry-seal ca m clear =
    let placed : DirectoryEntry = record m { rca = ca } in
    let bare : DirectoryEntry = record placed { checksum = 0 } in
    let same_entry : placed ≡ bare = λ i. record placed { checksum = clear i } in
    let test : (entry_sum bare == entry_sum placed) ≡ true =
      ap (λ e. entry_sum bare == entry_sum e) same_entry ∙ same (entry_sum bare) in
    rw test refl

-- the entries after one was stored: those in front of its place, which are in use, the new one, and
-- what was behind, with the mark
pub record Filled (new : DirectoryEntry) (es later : List DirectoryEntry) (i : ℕ) : Type 0 where
  pub behind : List DirectoryEntry
  pub in_use : All (λ e. is_open e ≡ false) (take i es)
  pub whole : later ≡ take i es ++ (new ∷ mark_end behind)

abbrev FillResult : DirectoryEntry → List DirectoryEntry → Option (ℕ × List DirectoryEntry) → Type 0
FillResult new es none = All (λ e. is_open e ≡ false) es
FillResult new es (some p) = Filled new es p.1 p.0

fill_later :
    (new e : DirectoryEntry) (es : List DirectoryEntry)
    → is_open e ≡ false
    → (o : Option (ℕ × List DirectoryEntry)) → FillResult new es o
    → FillResult new (e ∷ es) (elim o [ none ↦ none | some p ↦ some (suc p.0, e ∷ p.1) ])
fill_later new e es taken none r = (taken, r)
fill_later new e es taken (some p) r = record {
  behind = r.behind;
  in_use = (taken, r.in_use);
  whole = ap (λ (xs : List DirectoryEntry). e ∷ xs) r.whole;
}

fill_slot-FillResult :
    (new : DirectoryEntry) (es : List DirectoryEntry) → FillResult new es (fill_slot new es)
unfolding fill_slot
fill_slot-FillResult new [] = tt
fill_slot-FillResult new (e ∷ es) = elim (Bool-cases (is_open e)) [
  | inl free ↦ rw free (record { behind = es; in_use = tt; whole = refl })
  | inr taken ↦
      rw taken (fill_later new e es taken (fill_slot new es) (fill_slot-FillResult new es))
]

or_right : (a b : Bool) → (a || b) ≡ false → b ≡ false
or_right true b h = absurd (true≢false h)
or_right false b h = h

-- what an entry in use is not
in_use_not_end : (e : DirectoryEntry) → is_open e ≡ false → (first_byte e == entry_end) ≡ false
unfolding is_open
in_use_not_end e taken = or_right (first_byte e == entry_free) (first_byte e == entry_end) (
    or_right (not (validate_entry e).0) (first_byte e == entry_free || first_byte e == entry_end)
      taken)

starts_with : (name : List ℕ) → (get_or (set name 0 entry_end) 0 0 == entry_end) ≡ true
starts_with [] = refl
starts_with (c ∷ cs) = refl

-- the first byte of an entry that is marked as the end
first_byte-set :
    (e : DirectoryEntry) → (get_or (set e.file_name 0 entry_end) 0 0 == entry_end) ≡ true
first_byte-set e = starts_with e.file_name

module _ {S : Type 0} (name : List ℕ) (ca : ℕ) where
  -- a round of the scan of a search, at an entry that is not the end
  scan_found :
      (i : ℕ) (e : DirectoryEntry) (es : List DirectoryEntry) (meta : Meta) (l : Logged S)
      → (first_byte e == entry_end) ≡ false
      → is_sought name e ≡ true
      → scan_entries (search_handler name) ca i (e ∷ es) meta l
        ≡ ((true, e ∷ es, copy_found ca e meta), l)
  unfolding scan_entries search_handler
  scan_found i e es meta l starts sought = rw starts (rw sought refl)

  scan_miss :
      (i : ℕ) (e : DirectoryEntry) (es : List DirectoryEntry) (meta : Meta) (l : Logged S)
      → (first_byte e == entry_end) ≡ false
      → is_sought name e ≡ false
      → let r = scan_entries (search_handler name) ca (i + 1) es meta l in
        scan_entries (search_handler name) ca i (e ∷ es) meta l
        ≡ ((r.0.0, (validate_entry e).1 ∷ r.0.1, r.0.2), r.1)
  unfolding scan_entries search_handler
  scan_miss i e es meta l starts other = rw starts (rw other refl)

  scan_marked :
      (i : ℕ) (behind : List DirectoryEntry) (meta : Meta) (l : Logged S)
      → scan_entries (search_handler name) ca i (mark_end behind) meta l
        ≡ ((false, mark_end behind, meta), l)
  unfolding scan_entries mark_end first_byte
  scan_marked i [] meta l = refl
  scan_marked i (e ∷ es) meta l = rw (first_byte-set e) refl

  -- what the search says of a cluster with the new entry
  abbrev Outcome :
      DirectoryEntry → Meta → Logged S → (Bool × List DirectoryEntry × Meta) × Logged S → Type 0
  Outcome new meta l r =
      (r.0.0 ≡ is_sought name new)
      × (r.0.2 ≡ (if is_sought name new then copy_found ca new meta else meta))
      × (r.1 ≡ l)

  scan_stored :
      (i : ℕ) (front : List DirectoryEntry) (new : DirectoryEntry) (behind : List DirectoryEntry)
      (meta : Meta) (l : Logged S)
      → All (λ e. is_open e ≡ false) front
      → All (λ e. is_sought name e ≡ false) front
      → (first_byte new == entry_end) ≡ false
      → Outcome new meta l
          (scan_entries (search_handler name) ca i (front ++ (new ∷ mark_end behind)) meta l)
  scan_stored i [] new behind meta l in_use other starts = elim (Bool-cases (is_sought name new)) [
    | inl sought ↦
        rw (scan_found i new (mark_end behind) meta l starts sought) (rw sought (refl, refl, refl))
    | inr not_sought ↦
        rw (scan_miss i new (mark_end behind) meta l starts not_sought)
          (rw (scan_marked (i + 1) behind meta l) (rw not_sought (refl, refl, refl)))
  ]
  scan_stored i (e ∷ es) new behind meta l in_use other starts =
      rw (scan_miss i e (es ++ (new ∷ mark_end behind)) meta l (in_use_not_end e in_use.0) other.0)
        (scan_stored (i + 1) es new behind meta l in_use.1 other.1 starts)

  -- Once `entry_add` has put an entry into the first entry of a cluster that can be overwritten, a
  -- search of the cluster for a name that no entry in front of it has answers whether the new entry
  -- has it, and gives that entry: what stands behind it is not found any more.
  pub scan_entries-fill_slot :
      (new : DirectoryEntry) (es : List DirectoryEntry) (p : ℕ × List DirectoryEntry) (meta : Meta)
      (l : Logged S)
      → fill_slot new es ≡ some p
      → All (λ e. is_sought name e ≡ false) (take p.0 es)
      → first_byte new ≢ entry_end
      → let r = scan_entries (search_handler name) ca 0 p.1 meta l in
        (r.0.0 ≡ is_sought name new)
        × (r.0.2 ≡ (if is_sought name new then copy_found ca new meta else meta))
        × (r.1 ≡ l)
  scan_entries-fill_slot new es p meta l stored other starts =
      let filled : Filled new es p.1 p.0 =
        subst (FillResult new es) stored (fill_slot-FillResult new es) in
      rw filled.whole
        (scan_stored 0 (take p.0 es) new filled.behind meta l filled.in_use other (ne→== starts))
