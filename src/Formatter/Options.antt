-- ===== src/Formatter/Options.antt =====
-- formatter/src/options.c: the arguments of the formatter. A string is the list of its bytes; `atoi`
-- is a parameter, for numbers that are not negative.
use ni_fat.Base.{ℕ, ◌==◌, Bool, true, false, ◌&&◌, List, [], ◌∷◌, Option, none, some}

-- `opt_t`
pub record Opt : Type 0 where
  pub save_path : Option (List ℕ)
  pub source_path : Option (List ℕ)
  pub v_size : ℕ
  pub spc : ℕ
  pub fc : ℕ
  pub bsbc : ℕ
  pub b_bsbc : ℕ
  pub jc : ℕ
  pub ec : ℕ

-- `opt` of nifat32formatter.c
abbrev pub default_opt : Opt
default_opt = record {
  save_path = none;
  source_path = none;
  v_size = 64;
  spc = 8;
  fc = 4;
  bsbc = 5;
  b_bsbc = 0;
  jc = 2;
  ec = 1;
}

-- an option
pub data Key : Type 0 where
  source_option : Key
  save_option : Key
  output_size : Key
  spc_option : Key
  fat_count_opt : Key
  bs_backups_opt : Key
  b_bs_opt : Key
  journals_backups_opt : Key

-- its text
unfoldable pub key_text : Key → List ℕ
key_text source_option = 45 ∷ 115 ∷ []
key_text save_option = 45 ∷ 111 ∷ []
key_text output_size = 45 ∷ 45 ∷ 118 ∷ 111 ∷ 108 ∷ 117 ∷ 109 ∷ 101 ∷ 45 ∷ 115 ∷ 105 ∷ 122 ∷ 101 ∷ []
key_text spc_option = 45 ∷ 45 ∷ 115 ∷ 112 ∷ 99 ∷ []
key_text fat_count_opt = 45 ∷ 45 ∷ 102 ∷ 99 ∷ []
key_text bs_backups_opt = 45 ∷ 45 ∷ 98 ∷ 115 ∷ 98 ∷ 99 ∷ []
key_text b_bs_opt = 45 ∷ 45 ∷ 98 ∷ 45 ∷ 98 ∷ 115 ∷ 98 ∷ 99 ∷ []
key_text journals_backups_opt = 45 ∷ 45 ∷ 106 ∷ 99 ∷ []

-- `!strcmp(a, b)`
unfoldable pub same_text : List ℕ → List ℕ → Bool
same_text [] [] = true
same_text [] (y ∷ ys) = false
same_text (x ∷ xs) [] = false
same_text (x ∷ xs) (y ∷ ys) = x == y && same_text xs ys

-- the tests in the order of the code
abbrev pub keys : List Key
keys =
    source_option ∷ save_option ∷ output_size ∷ spc_option ∷ fat_count_opt ∷ bs_backups_opt
    ∷ b_bs_opt ∷ journals_backups_opt ∷ []

unfoldable pub find_key : List Key → List ℕ → Option Key
find_key [] arg = none
find_key (k ∷ ks) arg = elim (same_text arg (key_text k)) [
  | true ↦ some k
  | false ↦ find_key ks arg
]

module _ (atoi : List ℕ → ℕ) where
  -- the assignment of an option
  unfoldable pub store_option : Key → List ℕ → Opt → Opt
  store_option source_option value o = record o { source_path = some value }
  store_option save_option value o = record o { save_path = some value }
  store_option output_size value o = record o { v_size = atoi value }
  store_option spc_option value o = record o { spc = atoi value }
  store_option fat_count_opt value o = record o { fc = atoi value }
  store_option bs_backups_opt value o = record o { bsbc = atoi value }
  store_option b_bs_opt value o = record o { b_bsbc = atoi value }
  store_option journals_backups_opt value o = record o { jc = atoi value }

  -- the loop of `process_input` over the arguments behind the program's name: the options, and
  -- whether it returned 1
  unfoldable pub process_input : List (List ℕ) → Opt → Bool × Opt
  process_input [] o = (true, o)
  process_input (arg ∷ []) o = elim (find_key keys arg) [ none ↦ (true, o) | some k ↦ (false, o) ]
  process_input (arg ∷ value ∷ rest) o = elim (find_key keys arg) [
    | none ↦ process_input (value ∷ rest) o
    | some k ↦ process_input rest (store_option k value o)
  ]
