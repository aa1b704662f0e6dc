-- ===== src/Tests/Device.antt =====
-- A device of 512-byte sectors in memory, as the hosts of the file system provide it, and a small
-- volume on it.
use ni_fat.Base.{
  ℕ, zero, suc, ◌+◌, ◌-◌, ◌<◌, ◌≤◌, ◌==◌, ltb, leb, if◌then◌else◌, ◌&&◌, ◌≡◌, ◌≢◌, ap, ap₂, refl,
  ◌∙◌, arith,
}
use ni_fat.Base.{true, false, List, [], ◌∷◌, length, get_or, none, some, ◌⊎◌, inl, inr}
use ni_fat.State.{FatData, Driver, IsDevice, Core}

-- the bytes of each sector
abbrev pub Store : Type 0
Store = ℕ → ℕ → ℕ

unfoldable pub slice : (ℕ → ℕ) → ℕ → ℕ → List ℕ
slice bytes off zero = []
slice bytes off (suc n) = bytes off ∷ slice bytes (off + 1) n

unfoldable pub stored : Store → ℕ → ℕ → List ℕ → Store
stored t sa off bytes s o =
    if s == sa && leb off o && ltb o (off + length bytes) then get_or bytes (o - off) 0 else t s o

abbrev pub memory : Driver Store
memory = record {
  read_sector = λ t sa off n. (1, slice (t sa) off n);
  write_sector = λ t sa off bytes. (1, stored t sa off bytes);
}

pub slice_same :
    (f g : ℕ → ℕ) (off n : ℕ)
    → ((o : ℕ) → off ≤ o → o < off + n → f o ≡ g o)
    → slice f off n ≡ slice g off n
unfolding slice
slice_same f g off zero h = refl
slice_same f g off (suc n) h =
    ap₂ ◌∷◌ (h off (omega arith) (omega arith))
      (slice_same f g (off + 1) n (λ o p q. h o (omega arith) (omega arith)))

pub slice_of :
    (f : ℕ → ℕ) (off : ℕ) (bytes : List ℕ)
    → ((k : ℕ) → k < length bytes → f (off + k) ≡ get_or bytes k 0)
    → slice f off (length bytes) ≡ bytes
unfolding slice
slice_of f off [] h = refl
slice_of f off (b ∷ bs) h =
    ap₂ ◌∷◌ (ap f (omega arith) ∙ h 0 (omega arith))
      (slice_of f (off + 1) bs (λ k p. ap f (omega arith) ∙ h (suc k) (omega arith)))

pub stored-inside :
    (t : Store) (sa off : ℕ) (bytes : List ℕ) (k : ℕ)
    → k < length bytes
    → stored t sa off bytes sa (off + k) ≡ get_or bytes k 0
unfolding stored
stored-inside t sa off bytes k h =
    let here : (sa == sa && leb off (off + k) && ltb (off + k) (off + length bytes)) ≡ true =
      ground arith in
    rw here (ap (λ (i : ℕ). get_or bytes i 0) (omega arith))

pub stored-outside :
    (t : Store) (sa off : ℕ) (bytes : List ℕ) (sb o : ℕ)
    → (sa ≢ sb) ⊎ ((off + length bytes ≤ o) ⊎ (o < off))
    → stored t sa off bytes sb o ≡ t sb o
unfolding stored
stored-outside t sa off bytes sb o h =
    let there : (sb == sa && leb off o && ltb o (off + length bytes)) ≡ false = ground arith in
    rw there

pub memory-IsDevice : IsDevice memory 512
memory-IsDevice = record {
  read_back =
      λ t sa off bytes h ok. (ok, slice_of _ off bytes (λ k p. stored-inside t sa off bytes k p));
  read_apart = λ t sa off bytes sb o n h k apart.
      ap (λ (l : List ℕ). (1, l))
        (slice_same _ _ o n (λ i p q. stored-outside t sa off bytes sb i (elim apart [
          | inl ne ↦ inl ne
          | inr (inl x) ↦ inr (inl (omega arith))
          | inr (inr x) ↦ inr (inr (omega arith))
        ])));
}

abbrev pub volume : FatData
volume = record {
  fat_count = 3;
  first_data_sector = 16;
  total_sectors = 4096;
  total_clusters = 40;
  bytes_per_sector = 512;
  cluster_size = 512;
  sectors_per_cluster = 1;
  ext_root_cluster = 2;
  sectors_padd = 1;
  journals_count = 1;
  errors_count = 2;
  entry_offset = none;
}

abbrev pub blank : Core Store
blank = record {
  store = λ s o. 0;
  sector_size = 512;
  errors = record { first_error = 1; current = 1; last_error = 1 };
  fat = none;
  bitmap = some (0 ∷ 0 ∷ []);
  last_allocated = 10;
}
