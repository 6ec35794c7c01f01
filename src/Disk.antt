-- ===== src/Disk.antt =====
-- The calls of package os and io that svc/storage.go makes. A disk maps paths to entries; paths are
-- compared as they are written.
pub mod Laws
pub mod Files
pub mod Distinct
use eggdfs.Base.{
  ℕ, ◌+◌, Bool, true, false, ◌&&◌, ◌||◌, not, Option, none, some, List, [], ◌∷◌, ◌++◌, ◌==◌,
  if◌then◌else◌,
}
use eggdfs.Base.Dict.{Dict, lookup, insert, remove}
use eggdfs.Base.Text.{Text, text_eq, last_index}
use eggdfs.Util.{take, drop}

pub data Entry : Type 0 where
  file : Text → Entry
  dir : Entry

abbrev pub Disk : Type 0
Disk = Dict Entry

-- What the system refuses in one request although the disk would allow it, and what it says then.
-- `cut` is the number of bytes after which a copy breaks off.
pub record Faults : Type 0 where
  pub no_stat : Text → Bool
  pub no_make : Text → Bool
  pub no_create : Text → Bool
  pub no_remove : Text → Bool
  pub no_open : Bool
  pub no_reopen : Bool
  pub cut : Option ℕ
  pub unreadable : Bool
  pub message : Text

abbrev pub calm : Faults
calm = record {
  no_stat = λ p. false;
  no_make = λ p. false;
  no_create = λ p. false;
  no_remove = λ p. false;
  no_open = false;
  no_reopen = false;
  cut = none;
  unreadable = false;
  message = [];
}

-- Whether `os.Stat` finds the path.
unfoldable pub stat : Faults → Text → Disk → Bool
stat f p d = if f.no_stat p then false else elim (lookup p d) [ none ↦ false | some _ ↦ true ]

-- The directories on the way to a path and the path itself.
unfoldable pub prefixes_from : Text → Text → List Text
prefixes_from before [] = before ∷ []
prefixes_from before (c ∷ s) =
    let rest = prefixes_from (before ++ (c ∷ [])) s in if c == b'/' then before ∷ rest else rest

-- One directory; the root is always there.
unfoldable pub make_dir : Faults → Text → Disk → Option Disk
make_dir f [] d = some d
make_dir f (c ∷ p) d = elim (lookup (c ∷ p) d) [
  | some (file _) ↦ none
  | some dir ↦ some d
  | none ↦ if f.no_make (c ∷ p) then none else some (insert (c ∷ p) dir d)
]

-- What was made before a failure stays.
unfoldable pub make_dirs : Faults → List Text → Disk → Disk × Bool
unfolding make_dir
make_dirs f [] d = (d, true)
make_dirs f (p ∷ ps) d = elim (make_dir f p d) [ none ↦ (d, false) | some d' ↦ make_dirs f ps d' ]

-- `os.MkdirAll`: the empty path is no directory and cannot be made.
unfoldable pub mkdir_all : Faults → Text → Disk → Disk × Bool
unfolding make_dirs prefixes_from
mkdir_all f [] d = (d, false)
mkdir_all f (c ∷ p) d = make_dirs f (prefixes_from [] (c ∷ p)) d

unfoldable pub is_dir : Text → Disk → Bool
is_dir p d = elim (lookup p d) [ some dir ↦ true | some (file _) ↦ false | none ↦ false ]

-- Whether a file can stand at the path: it has a name, and its directory exists. A path without a
-- slash is in the working directory, and one whose only slash leads is in the root.
unfoldable pub has_parent : Text → Disk → Bool
unfolding is_dir last_index take drop
has_parent p d = elim (last_index b'/' p) [
  | none ↦ true
  | some i ↦ not (text_eq (drop (i + 1) p) []) && (if i == 0 then true else is_dir (take i p) d)
]

-- `os.Create`: an existing file is truncated.
unfoldable pub create : Faults → Text → Disk → Option Disk
unfolding has_parent is_dir
create f p d =
    if f.no_create p || not (has_parent p d) || is_dir p d
    then none
    else some (insert p (file []) d)

-- What `io.Copy` writes.
unfoldable pub copied : Faults → Text → Text
unfolding take
copied f content = elim f.cut [ none ↦ content | some n ↦ take n content ]

-- `io.Copy` into a file that was created, and whether it came to the end.
unfoldable pub copy_into : Faults → Text → Text → Disk → Disk × Bool
unfolding copied
copy_into f p content d =
    (insert p (file (copied f content)) d, elim f.cut [ none ↦ true | some _ ↦ false ])

-- Whether `p` and a slash begin the path.
unfoldable pub is_below : Text → Text → Bool
is_below [] [] = false
is_below [] (c ∷ q) = c == b'/'
is_below (a ∷ p) [] = false
is_below (a ∷ p) (c ∷ q) = a == c && is_below p q

unfoldable pub is_filled : Text → Disk → Bool
unfolding is_below
is_filled p [] = false
is_filled p ((q, e) ∷ d) = is_below p q || is_filled p d

-- `os.Remove`: a file or an empty directory.
unfoldable pub remove_path : Faults → Text → Disk → Option Disk
unfolding is_filled
remove_path f p d = if f.no_remove p then none else elim (lookup p d) [
  | none ↦ none
  | some (file _) ↦ some (remove p d)
  | some dir ↦ if is_filled p d then none else some (remove p d)
]
