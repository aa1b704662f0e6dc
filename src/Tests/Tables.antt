-- ===== src/Tests/Tables.antt =====
-- The theorems on codes, votes, locks and the bitmap, at concrete values.
use ni_fat.Base.{
  ℕ, ◌+◌, ◌<◌, ◌≤◌, ◌≡◌, ◌⊎◌, inl, inr, refl, arith, true, false, List, [], ◌∷◌, length, toggle_bit,
}
use ni_fat.State
use ni_fat.Hamming.{set_byte, pack_memory, unpack_memory}
use ni_fat.Hamming.Correct.{unpack-pack_memory}
use ni_fat.Threading.{lock_pack, no_owner, try_read, try_release_read}
use ni_fat.Threading.Exclusion.{Reach, unlocked, next, read, unread, Reach-exclusive}
use ni_fat.Disk.Areas.{begin, end, serve, IsExclusive, serve-IsExclusive}
use ni_fat.Fatmap.{find_free_in}
use ni_fat.Fatmap.Search.{IsFreeRange, find_free_in-first}

-- 0x2b is kept with bit 3 of its codeword flipped, 0xf0 is kept as it is
unpack-pack_memory_example :
    unpack_memory (toggle_bit (set_byte 0x2b) 3 ∷ set_byte 0xf0 ∷ []) ≡ 0x2b ∷ 0xf0 ∷ []
unfolding pack_memory
unpack-pack_memory_example =
    unpack-pack_memory (0x2b ∷ 0xf0 ∷ []) (toggle_bit (set_byte 0x2b) 3 ∷ set_byte 0xf0 ∷ [])
      (omega arith) (inr (3, omega arith, refl), (inl refl, tt))

-- two readers, one of which has left again
one_reader : Reach (record { word = lock_pack 1 false no_owner; readers = 1; writers = [] })
unfolding try_read try_release_read
one_reader = next (next (next unlocked (read refl)) (read refl)) (unread refl refl)

Reach-exclusive_example :
    (length {A = ℕ} [] ≤ 1) × (0 < length {A = ℕ} [] → ◌≡◌ {A = ℕ} 1 0) × (1 ≤ 255)
Reach-exclusive_example = Reach-exclusive one_reader

serve-IsExclusive_example :
    IsExclusive
      (serve State.unlocked
        (begin 4 8 true ∷ begin 6 2 true ∷ begin 6 1 false ∷ end 6 2 ∷ begin 12 2 false ∷ [])).areas
serve-IsExclusive_example =
    serve-IsExclusive
      (begin 4 8 true ∷ begin 6 2 true ∷ begin 6 1 false ∷ end 6 2 ∷ begin 12 2 false ∷ [])
      (omega arith)

find_free_in-first_example :
    let bitmap : List ℕ = 0xfffffff3 ∷ 0 ∷ [] in
    let r : ℕ = find_free_in bitmap 2 3 40 in
    ((2 ≤ r)
      × (r + 3 ≤ 40)
      × IsFreeRange bitmap 3 r
      × ((k : ℕ) → 2 ≤ k → k < r → ¬ IsFreeRange bitmap 3 k))
    ⊎ ((r ≡ 0) × ((k : ℕ) → 2 ≤ k → k + 3 ≤ 40 → ¬ IsFreeRange bitmap 3 k))
find_free_in-first_example =
    find_free_in-first (0xfffffff3 ∷ 0 ∷ []) 2 3 40 (omega arith) (omega arith)
