-- ===== src/Util/FileNames.antt =====
-- `GenFileName`: the name that a storage gives to an upload is one element of a path, and the tracker
-- reads it back from the header.
use eggdfs.Base.{
  ℕ, ◌≡◌, ◌∙◌, ◌⊎◌, ◌++◌, ◌||◌, refl, true, false, inl, inr, [], ◌∷◌, done, ◌==◌, if◌then◌else◌,
  arith, Bool-cases,
}
use eggdfs.Base.Text.{Text, has_byte, ext_of, path_ext}
use eggdfs.Util.{gen_file_name, parse_header_file_path}
use eggdfs.Util.Paths.{parse_header_file_path_iff}

-- The extension found so far has no slash, or one is still to come and will drop it.
abbrev IsClean : Text → Text → Type 0
IsClean found s = (has_byte b'/' s ≡ true) ⊎ (has_byte b'/' found ≡ false)

unfoldable pub next_found : ℕ → Text → Text → Text
next_found a found s = if a == b'/' then [] else if a == b'.' then a ∷ s else found

IsClean-next : (a : ℕ) (found s : Text) → IsClean found (a ∷ s) → IsClean (next_found a found s) s
unfolding next_found has_byte
IsClean-next a found s h = elim (Bool-cases (has_byte b'/' s)) [
  | inl later ↦ inl later
  | inr clean ↦ inr (elim h [ inl e ↦ ground arith | inr e ↦ ground arith ])
]

ext_of-plain : (found s : Text) → IsClean found s → has_byte b'/' (ext_of found s) ≡ false
unfolding ext_of next_found has_byte
ext_of-plain found [] (inl e) = ground arith
ext_of-plain found [] (inr e) = e
ext_of-plain found (a ∷ s) h = ext_of-plain (next_found a found s) s (IsClean-next a found s h)

path_ext-plain : (s : Text) → has_byte b'/' (path_ext s) ≡ false
unfolding path_ext has_byte
path_ext-plain s = ext_of-plain [] s (inr refl)

has_byte-append : (c : ℕ) (s t : Text) → has_byte c (s ++ t) ≡ (has_byte c s || has_byte c t)
unfolding has_byte
has_byte-append c [] t = refl
has_byte-append c (a ∷ s) t = ground (arith, has_byte-append c s t)

pub gen_file_name-plain :
    (id fn : Text) → has_byte b'/' id ≡ false → has_byte b'/' (gen_file_name id fn) ≡ false
unfolding gen_file_name
gen_file_name-plain id fn clean =
    has_byte-append b'/' id (path_ext fn) ∙ rw (clean, path_ext-plain fn)

-- The header that a storage sends after an upload, the directory, a slash and the generated name, is
-- read back by the tracker as that directory and that name, if the identifier has no slash: whatever
-- the directory is, and whatever name the client gave to the file.
pub parse_header_file_path-gen_file_name :
    (dir id fn : Text)
    → has_byte b'/' id ≡ false
    → parse_header_file_path (dir ++ (b'/' ∷ gen_file_name id fn)) ≡ done (dir, gen_file_name id fn)
parse_header_file_path-gen_file_name dir id fn clean =
    (parse_header_file_path_iff _ dir (gen_file_name id fn)).1
      (refl, gen_file_name-plain id fn clean)
