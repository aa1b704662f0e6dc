-- ===== src/Tests/Volumes.antt =====
-- The formatter on a file in memory.
use ni_fat.Base.{
  ℕ, zero, suc, ◌+◌, ◌-◌, ◌*◌, ◌≤◌, ◌≡◌, ◌⊎◌, refl, ap, inl, inr, arith, Bool, true, false, ==_iff,
  List, [], ◌∷◌, length, take, replicate, none, some,
}
use ni_fat.State.{Core, unlocked}
use ni_fat.Layout.{blank_journal}
use ni_fat.Content.Allocation.{open_table}
use ni_fat.Threading.{null_lock}
use ni_fat.Names.{name_to_fatname}
use ni_fat.Names.Roundtrip.{short}
use ni_fat.Boot.{Params, Instance}
use ni_fat.Boot.Start.{init}
use ni_fat.Boot.Start.Fallback.{plain, waiting}
use ni_fat.Unix.{disk_io}
use ni_fat.Formatter.Options.{default_opt}
use ni_fat.Formatter.Files.{
  Posix, Volume, to_83_name, copy_file, copy_parts, take_cluster, first_free, link, copied_part,
}
use ni_fat.Formatter.Whole.{Filed, copy_file-Filed}
use ni_fat.Formatter.{
  put_bytes, put_boot, and_then, put_all, write_bs, sectors_left, next_fat_size, fat_size_loop,
  calculate_fat_size,
}
use ni_fat.Formatter.Copies.{IsFile}
use ni_fat.Formatter.Mounted.{mount_params, HasGeometry, init-write_bs}
use ni_fat.Formatter.Sizes.{Exact, loop-cycle, loop-never, calculate_fat_size-settles}
use ni_fat.Formatter.Names.{to_83_name-name_to_fatname}
use ni_fat.Tests.Device.{
  Store, slice, stored, slice_same, slice_of, stored-inside, stored-outside, volume, blank,
}

-- a file in memory, as one long sector
abbrev image : Posix Store
image = record {
  pwrite = λ t off bytes. (length bytes, stored t 0 off bytes);
  pread = λ t off n. slice (t 0) off n;
}

slice_front : (f : ℕ → ℕ) (off m n : ℕ) → m ≤ n → take m (slice f off n) ≡ slice f off m
unfolding slice
slice_front f off zero n h = refl
slice_front f off (suc m) zero h = absurd (omega arith)
slice_front f off (suc m) (suc n) h =
    ap (λ (r : List ℕ). f off ∷ r) (slice_front f (off + 1) m n (omega arith))

length-slice : (f : ℕ → ℕ) (off n : ℕ) → length (slice f off n) ≡ n
unfolding slice
length-slice f off zero = refl
length-slice f off (suc n) = ap suc (length-slice f (off + 1) n)

image-IsFile : IsFile image
image-IsFile = record {
  written = λ t off bytes ok. slice_of _ off bytes (λ k p. stored-inside t 0 off bytes k p);
  apart = λ t off bytes o n away. slice_same _ _ o n (λ i p q.
      stored-outside t 0 off bytes 0 i
        (inr (elim away [ inl x ↦ inr (omega arith) | inr x ↦ inl (omega arith) ])));
  front = λ t o m n h. slice_front (t 0) o m n h;
  whole = λ t o n. length-slice (t 0) o n;
}

-- every write goes well
put_all-ok :
    (one : ℕ → Store → Bool × Store)
    → ((i : ℕ) (t : Store) → (one i t).0 ≡ true)
    → (n i : ℕ) (t : Store) → (put_all image one n i t).0 ≡ true
unfolding put_all
put_all-ok one fine zero i t = refl
put_all-ok one fine (suc n) i t =
    go_on (one i t) (fine i t) (put_all-ok one fine n (i + 1) (one i t).1)
  where
    go_on :
        (r : Bool × Store)
        → r.0 ≡ true
        → (put_all image one n (i + 1) r.1).0 ≡ true
        → (and_then image r (put_all image one n (i + 1))).0 ≡ true
    go_on (true, t') ok rest = rest
    go_on (false, t') ok rest = ok

put_boot-ok : (ts : ℕ) (bytes : List ℕ) (i : ℕ) (t : Store) → (put_boot image ts bytes i t).0 ≡ true
unfolding put_boot put_bytes
put_boot-ok ts bytes i t = (==_iff (length bytes) (length bytes)).1 refl

write_bs-ok : (write_bs image default_opt true 131072 128 (λ s o. 0)).0 ≡ true
unfolding write_bs
write_bs-ok = put_all-ok _ (put_boot-ok 131072 _) 5 0 (λ s o. 0)

abbrev settings : Params
settings = record {
  fat_cache = 0;
  bs_num = 0;
  bs_count = 0;
  ts = 0;
  jc = 0;
  ec = 0;
  sector_size = 0;
  callbacks = true;
  cache_granted = true;
  map_granted = true;
}

abbrev formatted : Core Store
formatted = record blank { store = (write_bs image default_opt true 131072 128 (λ s o. 0)).1 }

abbrev fresh : Instance Store ℕ
fresh = record {
  api = record {
    world = record {
      logged = record {
        state = record { core = blank; guard = unlocked };
        index = 0;
        lock = null_lock;
      };
      table = open_table [] 0;
    };
    lock = null_lock;
  };
  info = volume;
  bs_count = 0;
  fat_size = 0;
}

-- a volume of 64 MB, mounted from the fourth copy
init-write_bs_example : HasGeometry default_opt 131072 128 (
    init
      (disk_io image 512)
      (λ i. 0)
      (λ i. blank_journal)
      1
      []
      1
      (plain (mount_params default_opt 131072 3 settings))
      (waiting fresh formatted))
init-write_bs_example =
    init-write_bs image image-IsFile (λ i. 0) (λ i. blank_journal) 1 [] default_opt 131072 128 3
      (λ s o. 0) settings fresh formatted
      (record {
        some_sector = omega arith;
        cluster_byte = omega arith;
        count_byte = omega arith;
        room = omega arith;
        small = omega arith;
        size_word = omega arith;
      })
      write_bs-ok refl (omega arith) (omega arith) (omega arith)

default_fits : default_opt.fc * next_fat_size default_opt 131072 0 ≤ 131072 - 32
unfolding next_fat_size sectors_left
default_fits = omega arith

default_rounds : 2 * next_fat_size default_opt 131072 0 + 2 ≤ 400
unfolding next_fat_size sectors_left
default_rounds = omega arith

-- 64 MB
calculate_fat_size-settles_example :
    ((s : ℕ) × Exact default_opt 131072 s × (calculate_fat_size default_opt 131072 400 ≡ some s))
    ⊎ ((more : ℕ) → calculate_fat_size default_opt 131072 more ≡ none)
calculate_fat_size-settles_example =
    calculate_fat_size-settles default_opt 131072 (omega arith) (omega arith) (omega arith)
      default_fits 400 default_rounds

default_size : calculate_fat_size default_opt 131072 400 ≡ some 128
unfolding calculate_fat_size fat_size_loop next_fat_size sectors_left
default_size = refl

-- With 252 MB the loop goes to and fro between two sizes.
larger_never : (fuel : ℕ) → calculate_fat_size default_opt 516096 fuel ≡ none
unfolding calculate_fat_size next_fat_size sectors_left
larger_never = loop-never default_opt 516096 0 (omega arith) (
    loop-never default_opt 516096 504 (omega arith)
      (λ more. loop-cycle default_opt 516096 more 502 503 refl refl (omega arith)))

-- "readme.txt"
to_83_name-name_to_fatname_example :
    to_83_name (short (114 ∷ 101 ∷ 97 ∷ 100 ∷ 109 ∷ 101 ∷ []) (116 ∷ 120 ∷ 116 ∷ []))
    ≡ take 11 (
        name_to_fatname
          (short (114 ∷ 101 ∷ 97 ∷ 100 ∷ 109 ∷ 101 ∷ []) (116 ∷ 120 ∷ 116 ∷ []))
          (0 ∷ []))
to_83_name-name_to_fatname_example =
    to_83_name-name_to_fatname (114 ∷ 101 ∷ 97 ∷ 100 ∷ 109 ∷ 101 ∷ []) (116 ∷ 120 ∷ 116 ∷ [])
      (0 ∷ []) (omega arith) (omega arith) (omega arith) (omega arith) (omega arith)

-- a volume of ten clusters, with the fourth in use
abbrev ten_clusters : Volume Store
ten_clusters = record {
  file = λ s o. 0;
  table = 8 ∷ 8 ∷ 8 ∷ 0 ∷ 8 ∷ 0 ∷ 0 ∷ 0 ∷ 0 ∷ 0 ∷ [];
  last_alloc = 3;
}

-- a file of two clusters
copy_file-Filed_example :
    Filed image 16384 10 ten_clusters
      (replicate 5000 7)
      (copy_file image 16384 10 (replicate 5000 7) ten_clusters)
copy_file-Filed_example =
    copy_file-Filed image 16384 10 image-IsFile (omega arith) (replicate 5000 7) ten_clusters
      (omega arith) refl

ends_in_end :
    (copy_file image 16384 10 (replicate 5000 7) ten_clusters).1.table
    ≡ 8 ∷ 8 ∷ 8 ∷ 5 ∷ 8 ∷ 0x0fffffff ∷ 0 ∷ 0 ∷ 0 ∷ 0 ∷ []
unfolding copy_file copy_parts take_cluster first_free link copied_part
ends_in_end = refl
