-- ===== src/Tests/Texts.antt =====
-- The statements on strings and names at concrete values.
use ni_fat.Base.{ℕ, ◌+◌, ◌≡◌, arith, List, [], ◌∷◌, ◌++◌, length, drop, replicate, map}
use ni_fat.Strings.{to_upper}
use ni_fat.Names.{fatname_to_name, name_to_fatname}
use ni_fat.Names.Roundtrip.{short, fatname_to_name-name_to_fatname}

abbrev six : List ℕ
six = 1 ∷ 2 ∷ 3 ∷ 4 ∷ 5 ∷ 6 ∷ []

abbrev eight : List ℕ
eight = replicate 8 9

-- `ab` and `c`
abbrev ab : List ℕ
ab = 97 ∷ 98 ∷ []

abbrev extension : List ℕ
extension = 99 ∷ []

abbrev twelve : List ℕ
twelve = replicate 12 0

fatname_to_name-name_to_fatname_example :
    fatname_to_name (name_to_fatname (short ab extension) twelve) twelve
    ≡ map to_upper (short ab extension)
      ++ (0 ∷ drop (length (map to_upper (short ab extension)) + 1) twelve)
fatname_to_name-name_to_fatname_example =
    fatname_to_name-name_to_fatname ab extension twelve twelve
      ((omega arith, omega arith, omega arith), ((omega arith, omega arith, omega arith), tt))
      ((omega arith, omega arith, omega arith), tt) (omega arith) (omega arith) (omega arith)
