-- ===== src/Names.antt =====
-- std/fatname.c: names on the disk, which have eleven bytes and no dot. A name is the list of the bytes
-- in front of its terminator, none of which is 0; an array that is written is the list of its bytes.
-- What lies behind a list reads as 0.
pub mod Shape
pub mod Roundtrip
pub mod Paths
use ni_fat.Base.{
  ℕ, zero, suc, ◌+◌, ◌-◌, ◌==◌, if◌then◌else◌, Bool, false, not, ◌||◌, List, [], ◌∷◌, ◌++◌, length,
  get_or, set, take, drop, replicate,
}
use ni_fat.Strings.{strncpy, strlen, strcpy, uppercase}

abbrev pub dot : ℕ
dot = 46

abbrev pub space : ℕ
space = 32

-- PATH_SPLITTER
abbrev pub splitter : ℕ
splitter = 47

-- a loop that copies up to a space, or `n` bytes
unfoldable pub until_space : ℕ → List ℕ → List ℕ
until_space zero xs = []
until_space (suc n) xs =
    let c = get_or xs 0 0 in
    let rest = until_space n (drop 1 xs) in if c == space then [] else c ∷ rest

-- `has_ext`: one of `n` bytes is not a space
unfoldable pub has_ext : ℕ → List ℕ → Bool
has_ext zero xs = false
has_ext (suc n) xs = let rest = has_ext n (drop 1 xs) in not (get_or xs 0 0 == space) || rest

-- the bytes that go in front of the terminator
unfoldable pub dotted_text : List ℕ → List ℕ
dotted_text fatname =
    let ext = drop 8 fatname in
    until_space 8 fatname ++ ((if has_ext 3 ext then dot ∷ [] else []) ++ until_space 3 ext)

-- `nft32_fatname_to_name`
unfoldable pub fatname_to_name : List ℕ → List ℕ → List ℕ
fatname_to_name fatname name =
    let text = dotted_text fatname in
    if get_or fatname 0 0 == dot
    then (if get_or fatname 1 0 == dot
        then strncpy name (dot ∷ dot ∷ []) 3
        else strncpy name (dot ∷ []) 2)
    else (text ++ (0 ∷ drop (length text + 1) name))

-- the loop of `nft32_name_to_fatname` over what stands in front of the dot, `n` bytes at most
unfoldable pub take_base : ℕ → List ℕ → List ℕ
take_base zero name = []
take_base (suc n) [] = []
take_base (suc n) (c ∷ cs) = let rest = take_base n cs in if c == dot then [] else c ∷ rest

unfoldable pub skip_dot : List ℕ → List ℕ
skip_dot name = if get_or name 0 0 == dot then drop 1 name else name

-- a loop that fills up with spaces to `n` bytes
unfoldable pub pad : ℕ → List ℕ → List ℕ
pad n xs = xs ++ replicate (n - length xs) space

-- the eleven bytes that `nft32_name_to_fatname` writes
unfoldable pub eleven : List ℕ → List ℕ
eleven name =
    let base = take_base 8 name in
    let ext = take 3 (skip_dot (drop (length base) name)) in
    pad 11 (
      if get_or name 0 0 == dot
      then (if get_or name 1 0 == dot then dot ∷ dot ∷ [] else dot ∷ [])
      else (pad 8 base ++ ext))

-- `nft32_name_to_fatname`: the case changes up to a 0 that was in the array before, since the
-- terminator is written last.
unfoldable pub name_to_fatname : List ℕ → List ℕ → List ℕ
name_to_fatname name fatname = set (uppercase (eleven name ++ drop 11 fatname)) 11 0

-- the loop that goes back from `i` to a splitter, or to the front
unfoldable pub find_splitter : List ℕ → ℕ → ℕ
find_splitter path zero = 0
find_splitter path (suc i) =
    let before = find_splitter path i in if get_or path (suc i) 0 == splitter then suc i else before

-- `nft32_path_to_fatnames`
unfoldable pub path_to_fatnames : List ℕ → List ℕ → List ℕ
path_to_fatnames path fatnames =
    let buffer = strcpy fatnames path in
    let i = suc (find_splitter path (strlen path)) in
    uppercase (take i buffer ++ name_to_fatname (drop i path) (drop i buffer))

-- `nft32_extract_name`
unfoldable pub extract_name : List ℕ → List ℕ → List ℕ
extract_name path name =
    let i = find_splitter path (strlen path) in
    let from = if get_or path i 0 == splitter then suc i else i in strcpy name (drop from path)

-- `nft32_unpack_83_name`, which fills nine bytes and four
unfoldable pub unpack_83_base : List ℕ → List ℕ
unpack_83_base name83 = take 8 name83 ++ (0 ∷ [])

unfoldable pub unpack_83_ext : List ℕ → List ℕ
unpack_83_ext name83 = take 3 (drop 8 name83) ++ (0 ∷ [])
