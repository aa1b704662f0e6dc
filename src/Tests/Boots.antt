-- ===== src/Tests/Boots.antt =====
-- The boot sector of a concrete volume, and a mount from its second copy.
use ni_fat.Base.{
  ℕ, ◌==◌, ◌≡◌, refl, ap, ◌∙◌, subst, ◌++◌, drop, length, arith, true, false, if◌then◌else◌, List,
  [], replicate, none,
}
use mathlib.Core.List.{append_assoc}
use ni_fat.State.{Driver, Core, unlocked}
use ni_fat.Layout.{blank_journal}
use ni_fat.Content.Allocation.{open_table}
use ni_fat.Threading.{null_lock}
use ni_fat.Hamming.{decode, get_byte, unpack_memory}
use ni_fat.Hamming.Buffer.{le32, from_le32, word_bytes, bytes_words, unpacked, packed}
use ni_fat.Checksum.{rotl32, fmix32, scramble, mix_block, mix_bytes, murmur3}
use ni_fat.Boot.Sector.{
  is_valid_boot, seal_boot, seal_ext, boot_bytes, ext_bytes, boot_of, ext_of, le16, from_le16,
}
use ni_fat.Boot.{
  Params, Instance, boot_sector, info_of, decode_boot, bare_boot, current_boot, encoded_boot,
}
use ni_fat.Boot.Decoded.{info_of-current_boot, decoded_current, is_valid_boot-seal_boot}
use ni_fat.Boot.Start.{init}
use ni_fat.Boot.Start.Fallback.{plain, waiting, sector_found, Mounts, init-Mounts}
use ni_fat.Tests.Device.{volume, blank}

info_of-current_boot_example :
    let mounted = info_of 1 (bare_boot volume 4) volume in
    let again = decode_boot (encoded_boot (replicate 486 9) (current_boot mounted 4)) in
    (is_valid_boot again ≡ true) × (info_of 1 again volume ≡ mounted)
unfolding bare_boot
info_of-current_boot_example =
    info_of-current_boot 1 (bare_boot volume 4) volume (replicate 486 9) (omega arith) refl

-- the bytes of a correct copy
unfoldable good_copy : List ℕ
good_copy = encoded_boot [] (current_boot volume 4)

-- a device whose second copy of the boot sector is correct, and its first is zeros
abbrev half_good : Driver ℕ
half_good = record {
  read_sector = λ t sa off n. (1, if sa == boot_sector 1 4096 then good_copy else replicate 162 0);
  write_sector = λ t sa off bytes. (1, t);
}

abbrev settings : Params
settings = record {
  fat_cache = 0;
  bs_num = 0;
  bs_count = 2;
  ts = 4096;
  jc = 0;
  ec = 0;
  sector_size = 162;
  callbacks = true;
  cache_granted = true;
  map_granted = true;
}

abbrev core : Core ℕ
core = record {
  store = 0;
  sector_size = 0;
  errors = blank.errors;
  fat = none;
  bitmap = none;
  last_allocated = 0;
}

abbrev instance_before : Instance ℕ ℕ
instance_before = record {
  api = record {
    world = record {
      logged = record {
        state = record { core = core; guard = unlocked };
        index = 0;
        lock = null_lock;
      };
      table = open_table [] 0;
    };
    lock = null_lock;
  };
  info = volume;
  bs_count = 0;
  fat_size = 0;
}

first_invalid : is_valid_boot (sector_found half_good [] settings 0 0) ≡ false
unfolding boot_sector is_valid_boot seal_boot seal_ext boot_bytes ext_bytes le16 le32 decode_boot
    boot_of ext_of from_le16 from_le32 unpacked bytes_words word_bytes unpack_memory get_byte rotl32
    fmix32 scramble mix_block mix_bytes murmur3 decode
first_invalid = refl

second_decoded : sector_found half_good [] settings 0 1 ≡ current_boot volume 4
unfolding boot_sector encoded_boot good_copy
second_decoded =
    let bytes = packed (boot_bytes (current_boot volume 4)) in
    let rest = drop (length (bytes ++ [])) [] in
    ap decode_boot (append_assoc bytes [] rest)
    ∙ decoded_current volume 4 rest
        (record {
          sector_short = omega arith;
          cluster_byte = omega arith;
          padd_short = omega arith;
          count_byte = omega arith;
          total_word = omega arith;
          root_word = omega arith;
        })
        (omega arith)

second_valid : is_valid_boot (sector_found half_good [] settings 0 1) ≡ true
unfolding current_boot
second_valid = rw second_decoded (is_valid_boot-seal_boot (bare_boot volume 4))

-- The first copy is zeros, the second one is correct: the volume of the second is mounted.
init-Mounts_example :
    Mounts half_good
      (λ i. 0)
      (λ i. blank_journal)
      1
      []
      instance_before
      (sector_found half_good [] settings 0 1)
      (init half_good
        (λ i. 0)
        (λ i. blank_journal)
        1
        []
        2
        (plain settings)
        (waiting instance_before core))
init-Mounts_example =
    init-Mounts half_good (λ i. 0) (λ i. blank_journal) 1 [] 1 2 1 settings instance_before core
      (omega arith) refl (omega arith) (omega arith) (omega arith) (λ k _ _. omega arith)
      (λ k _ h.
        subst (λ (j : ℕ). is_valid_boot (sector_found half_good [] settings 0 j) ≡ false)
          (omega (arith, h)) first_invalid)
      second_valid
