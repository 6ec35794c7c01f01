-- ===== src/Util/Names.antt =====
-- The names and directories that a storage makes up for its files: what they tell apart.
use eggdfs.Base.{
  ℕ, ◌≡◌, ◌≢◌, ◌⊎◌, refl, sym, ap, ◌∙◌, true, false, inl, inr, [], ◌∷◌, ◌++◌, ◌==◌, ==_iff, arith,
  Bool-cases, done-injective,
}
use eggdfs.Base.Text.{Text, has_byte, ext_of, path_ext}
use eggdfs.Util.{gen_file_name}
use eggdfs.Util.FileNames.{gen_file_name-plain, next_found}
use eggdfs.Util.Paths.{parse_header_file_path_iff}

-- An extension is empty or starts with a dot.
abbrev IsExtension : Text → Type 0
IsExtension e = (e ≡ []) ⊎ ((t : Text) × (e ≡ b'.' ∷ t))

next-IsExtension : (a : ℕ) (found s : Text) → IsExtension found → IsExtension (next_found a found s)
unfolding next_found
next-IsExtension a found s h = elim (Bool-cases (a == b'/')) [
  | inl slash ↦ rw slash (inl refl)
  | inr other ↦ elim (Bool-cases (a == b'.')) [
    | inl dot ↦ rw (other, dot) (inr (s, ap (λ z. z ∷ s) ((==_iff a b'.').0 dot)))
    | inr none ↦ rw (other, none) h
  ]
]

ext_of-IsExtension : (found s : Text) → IsExtension found → IsExtension (ext_of found s)
unfolding ext_of next_found
ext_of-IsExtension found [] h = h
ext_of-IsExtension found (a ∷ s) h =
    ext_of-IsExtension (next_found a found s) s (next-IsExtension a found s h)

path_ext-IsExtension : (s : Text) → IsExtension (path_ext s)
unfolding path_ext
path_ext-IsExtension s = ext_of-IsExtension [] s (inl refl)

no_dot_first :
    (a : ℕ) (s e : Text) → IsExtension e → has_byte b'.' (a ∷ s) ≡ false → (r : Text) → e ≢ a ∷ r
unfolding has_byte
no_dot_first a s e (inl none) clean r q = cc (none, q)
no_dot_first a s e (inr (t, dot)) clean r q =
    let same : a ≡ b'.' = cc (dot, q) in
    let found : (a == b'.') ≡ true = (==_iff a b'.').1 same in cc (rw found at clean)

tail-clean : (a : ℕ) (s : Text) → has_byte b'.' (a ∷ s) ≡ false → has_byte b'.' s ≡ false
unfolding has_byte
tail-clean a s h = ground arith

stem_unique :
    (id id' e e' : Text)
    → has_byte b'.' id ≡ false
    → has_byte b'.' id' ≡ false
    → IsExtension e
    → IsExtension e'
    → id ++ e ≡ id' ++ e'
    → id ≡ id'
stem_unique [] [] e e' c c' x x' q = refl
stem_unique [] (a ∷ id') e e' c c' x x' q = absurd (no_dot_first a id' e x c' (id' ++ e') q)
stem_unique (a ∷ id) [] e e' c c' x x' q = absurd (no_dot_first a id e' x' c (id ++ e) (sym q))
stem_unique (a ∷ id) (b ∷ id') e e' c c' x x' q =
    let heads : a ≡ b = cc (q) in
    let tails : id ++ e ≡ id' ++ e' = cc (q) in
    let rest = stem_unique id id' e e' (tail-clean a id c) (tail-clean b id' c') x x' tails in
    cc (heads, rest)

-- An identifier without a slash or a dot, like those that the tracker generates.
pub record IsPlain (id : Text) : Type 0 where
  pub no_slash : has_byte b'/' id ≡ false
  pub no_dot : has_byte b'.' id ≡ false

-- Two files with the same directory and generated name have the same identifier.
pub stored_name-injective :
    (base base' id id' fn fn' : Text)
    → IsPlain id
    → IsPlain id'
    → base ++ (b'/' ∷ gen_file_name id fn) ≡ base' ++ (b'/' ∷ gen_file_name id' fn')
    → (base ≡ base') × (id ≡ id')
unfolding gen_file_name
stored_name-injective base base' id id' fn fn' plain plain' q =
    let name = gen_file_name id fn in
    let name' = gen_file_name id' fn' in
    let first =
      (parse_header_file_path_iff (base ++ (b'/' ∷ name)) base name).1
        (refl, gen_file_name-plain id fn plain.no_slash) in
    let second =
      (parse_header_file_path_iff (base ++ (b'/' ∷ name)) base' name').1
        (q, gen_file_name-plain id' fn' plain'.no_slash) in
    let same = done-injective (base, name) (base', name') (sym first ∙ second) in
    (
      ap (λ z. z.0) same,
      stem_unique id id' (path_ext fn) (path_ext fn') plain.no_dot plain'.no_dot
          (path_ext-IsExtension fn) (path_ext-IsExtension fn') (ap (λ z. z.1) same),
    )
