-- ===== src/Util/ContentType.antt =====
-- `GetFileContentType` as the storage calls it, on an extension that `path.Ext` returns.
use eggdfs.Base.{
  ℕ, ◌≡◌, refl, ap, none, inl, inr, [], ◌∷◌, Bool, true, false, ◌&&◌, not, if◌then◌else◌, ◌==◌,
  ==_iff, arith, Bool-cases,
}
use eggdfs.Base.Text.{Text, text_eq, to_lower, path_ext, ext_of, bytes}
use eggdfs.Base.Dict.{Dict, lookup}
use eggdfs.Common.Mime.{file_content_type, default_file_download_content_type}
use eggdfs.Util.{get_file_content_type, known_type}

-- Nothing, or a dot and more.
abbrev IsExtension : Text → Type 0
IsExtension [] = Unit
IsExtension (c ∷ s) = c ≡ b'.'

if-IsExtension :
    (b : Bool) (s t : Text) → IsExtension s → IsExtension t → IsExtension (if b then s else t)
if-IsExtension true s t h k = h
if-IsExtension false s t h k = k

dot-IsExtension :
    (a : ℕ) (s f : Text) → IsExtension f → IsExtension (if a == b'.' then a ∷ s else f)
dot-IsExtension a s f h = elim (Bool-cases (a == b'.')) [
  | inl dot ↦ rw dot ((==_iff a b'.').0 dot)
  | inr other ↦ rw other h
]

ext_of-IsExtension : (found s : Text) → IsExtension found → IsExtension (ext_of found s)
unfolding ext_of
ext_of-IsExtension found [] h = h
ext_of-IsExtension found (a ∷ s) h =
    ext_of-IsExtension (if a == b'/' then [] else if a == b'.' then a ∷ s else found) s
      (if-IsExtension (a == b'/') [] _ tt (dot-IsExtension a s found h))

to_lower-IsExtension : (s : Text) → IsExtension s → IsExtension (to_lower s)
unfolding to_lower
to_lower-IsExtension [] h = tt
to_lower-IsExtension (c ∷ s) h = ground arith

-- Keys that begin with a character that is no dot.
unfoldable is_plain : Text → Bool
is_plain [] = false
is_plain (c ∷ s) = not (c == b'.')

unfoldable all_plain : {V : Type 0} → Dict V → Bool
unfolding is_plain
all_plain [] = true
all_plain ((k, v) ∷ m) = is_plain k && all_plain m

lookup_extension :
    {V : Type 0} (e : Text) (m : Dict V) → IsExtension e → all_plain m ≡ true → lookup e m ≡ none
unfolding lookup all_plain text_eq
lookup_extension e [] h p = refl
lookup_extension [] (([], v) ∷ m) h p = ground arith
lookup_extension [] ((c ∷ k, v) ∷ m) h p = lookup_extension [] m h (ground arith)
lookup_extension (d ∷ e) (([], v) ∷ m) h p = ground arith
lookup_extension (d ∷ e) ((c ∷ k, v) ∷ m) h p = ground (arith, lookup_extension (d ∷ e) m h)

table-all_plain : all_plain file_content_type ≡ true
unfolding all_plain file_content_type bytes
table-all_plain = refl

-- For every path, the content type of its extension, with the dot that `path.Ext` gives it, is the
-- default type.
pub get_file_content_type-path_ext :
    (path : Text) → get_file_content_type (path_ext path) ≡ default_file_download_content_type
unfolding get_file_content_type path_ext
get_file_content_type-path_ext path = ap known_type (
    lookup_extension _ file_content_type (to_lower-IsExtension _ (ext_of-IsExtension [] path tt))
      table-all_plain)
