-- ===== src/Util.antt =====
-- util/helper.go: paths, file names and content types.
pub mod Paths
pub mod ContentType
pub mod FileNames
pub mod Names
pub mod Hash
use mathlib.Core.Bool.{◌&&◌}
use eggdfs.Base.Decimal.{itoa}
use eggdfs.Base.{
  ◌==◌, ℕ, zero, suc, ◌+◌, Option, none, some, List, [], ◌∷◌, ◌++◌, Outcome, done, panic,
  if◌then◌else◌,
}
use eggdfs.Base.Text.{Text, bytes, text_eq, last_index, to_lower, path_ext}
use eggdfs.Base.Dict.{lookup}
use eggdfs.Common.Mime.{file_content_type, default_file_download_content_type}

-- `path[:i]` and `path[i:]`
unfoldable pub take : ℕ → Text → Text
take zero s = []
take (suc n) [] = []
take (suc n) (c ∷ s) = c ∷ take n s

unfoldable pub drop : ℕ → Text → Text
drop zero s = s
drop (suc n) [] = []
drop (suc n) (c ∷ s) = drop n s

-- `path[:index]` panics where the index is -1.
unfoldable pub parse_header_file_path : Text → Outcome (Text × Text)
unfolding take drop last_index
parse_header_file_path path = elim (last_index b'/' path) [
  | none ↦ panic
  | some index ↦ done (take index path, drop (index + 1) path)
]

unfoldable pub gen_file_name : Text → Text → Text
unfolding path_ext
gen_file_name id fn = id ++ path_ext fn

unfoldable pub known_type : Option Text → Text
known_type none = default_file_download_content_type
known_type (some val) = if text_eq val [] then default_file_download_content_type else val

unfoldable pub get_file_content_type : Text → Text
unfolding known_type to_lower
get_file_content_type ext = known_type (lookup (to_lower ext) file_content_type)

-- `time.Now()`, as far as a path needs it.
pub record Date : Type 0 where
  pub year : ℕ
  pub month : ℕ
  pub day : ℕ

-- `strings.Join` of the three numbers with slashes, and the caller's directory if it gave one.
unfoldable pub gen_file_path : Date → Text → Text
unfolding itoa
gen_file_path cur p =
    let root = itoa cur.year ++ (b'/' ∷ (itoa cur.month ++ (b'/' ∷ itoa cur.day))) in
    if text_eq p [] then root else root ++ (b'/' ∷ p)

-- `path.Base`: the last element without the slashes that end the path.
unfoldable pub drop_slashes : Text → Text
drop_slashes [] = []
drop_slashes (c ∷ s) =
    let rest = drop_slashes s in if c == b'/' && text_eq rest [] then [] else c ∷ rest

unfoldable pub last_element : Text → Text
unfolding last_index drop
last_element s = elim (last_index b'/' s) [ none ↦ s | some i ↦ drop (i + 1) s ]

unfoldable pub path_base : Text → Text
unfolding drop_slashes last_element
path_base s =
    if text_eq s []
    then b'.' ∷ []
    else if text_eq (drop_slashes s) []
    then b'/' ∷ []
    else last_element (drop_slashes s)
