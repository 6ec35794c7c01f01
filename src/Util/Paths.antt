-- ===== src/Util/Paths.antt =====
-- `ParseHeaderFilePath` splits at the last slash, and panics without one.
use mathlib.Core.Option.{some-injective, none-ne-some}
use native.Mathlib.Numerals.{add-one}
use eggdfs.Base.{
  ℕ, suc, ◌+◌, ◌≡◌, refl, sym, ap, ap₂, subst, ◌↔◌, ◌∙◌, none, some, ◌⊎◌, inl, inr, [], ◌∷◌, ◌++◌,
  false, done, panic, ◌==◌, ==_iff, arith, Bool-cases, panic-ne-done, done-injective, Option-cases,
}
use eggdfs.Base.Text.{Text, last_index, has_byte}
use eggdfs.Util.{take, drop, parse_header_file_path}

last_index-none : (c : ℕ) (s : Text) → has_byte c s ≡ false → last_index c s ≡ none
unfolding last_index has_byte
last_index-none c [] h = refl
last_index-none c (a ∷ s) h = ground (arith, last_index-none c s)

has_byte_of_last_index : (c : ℕ) (s : Text) → last_index c s ≡ none → has_byte c s ≡ false
unfolding last_index has_byte
has_byte_of_last_index c [] h = refl
has_byte_of_last_index c (a ∷ s) h = ground (arith, has_byte_of_last_index c s)

drop_step : (i a : ℕ) (s : Text) → drop (suc i + 1) (a ∷ s) ≡ drop (i + 1) s
unfolding drop
drop_step i a s = ap (λ n. drop n (a ∷ s)) (add-one (suc i)) ∙ ap (λ n. drop n s) (sym (add-one i))

-- The last slash of `dir/base`, where `base` has none.
pub last_index-append :
    (c : ℕ) (d b : Text)
    → has_byte c b ≡ false
    → (i : ℕ) × (last_index c (d ++ (c ∷ b)) ≡ some i)
      × (take i (d ++ (c ∷ b)) ≡ d)
      × (drop (i + 1) (d ++ (c ∷ b)) ≡ b)
unfolding last_index take drop
last_index-append c [] b h = (0, ground (arith, last_index-none c b h), refl, refl)
last_index-append c (a ∷ d) b h =
    let (i, e, t, r) = last_index-append c d b h in
    (suc i, ground (arith, e), ap (◌∷◌ a) t, drop_step i a _ ∙ r)

-- A text with a slash is cut at its last one.
last_index_split :
    (c : ℕ) (s : Text) (i : ℕ)
    → last_index c s ≡ some i
    → (s ≡ take i s ++ (c ∷ drop (i + 1) s)) × (has_byte c (drop (i + 1) s) ≡ false)
unfolding last_index take drop
last_index_split c [] i e = cc
last_index_split c (a ∷ s) i e = elim (Option-cases (last_index c s)) [
  | inr (j, f) ↦
      let q : suc j ≡ i = some-injective _ _ (rw f at e) in
      let (whole, clean) = last_index_split c s j f in
      subst
        (λ n.
          (a ∷ s ≡ take n (a ∷ s) ++ (c ∷ drop (n + 1) (a ∷ s)))
          × (has_byte c (drop (n + 1) (a ∷ s)) ≡ false))
        q (rw drop_step (ap (◌∷◌ a) whole, clean))
  | inl f ↦ elim (Bool-cases (a == c)) [
    | inl same ↦
        let q : 0 ≡ i = some-injective _ _ (rw (f, same) at e) in
        subst
          (λ n.
            (a ∷ s ≡ take n (a ∷ s) ++ (c ∷ drop (n + 1) (a ∷ s)))
            × (has_byte c (drop (n + 1) (a ∷ s)) ≡ false))
          q (ap (λ z. z ∷ s) ((==_iff a c).0 same), has_byte_of_last_index c s f)
    | inr differ ↦ absurd (none-ne-some i (rw (f, differ) at e))
  ]
]

parse_of_none : (path : Text) → last_index b'/' path ≡ none → parse_header_file_path path ≡ panic
unfolding parse_header_file_path
parse_of_none path f = rw (f, parse_header_file_path)

parse_of_some :
    (path : Text) (i : ℕ)
    → last_index b'/' path ≡ some i
    → parse_header_file_path path ≡ done (take i path, drop (i + 1) path)
unfolding parse_header_file_path
parse_of_some path i f = rw (f, parse_header_file_path)

pub parse_header_file_path-cases :
    (path : Text)
    → ((d : Text) × (n : Text) × (parse_header_file_path path ≡ done (d, n)))
      ⊎ (has_byte b'/' path ≡ false)
parse_header_file_path-cases path = elim (Option-cases (last_index b'/' path)) [
  | inl f ↦ inr (has_byte_of_last_index b'/' path f)
  | inr (i, f) ↦ inl (_, _, parse_of_some path i f)
]

-- Exactly the paths with a slash are parsed: into what stands before the last slash and the name
-- after it, which the two parts and the slash make up again.
pub parse_header_file_path_iff :
    (path dir name : Text)
    → (parse_header_file_path path ≡ done (dir, name))
      ↔ ((path ≡ dir ++ (b'/' ∷ name)) × (has_byte b'/' name ≡ false))
parse_header_file_path_iff path dir name = (to, from)
  where
    to :
        parse_header_file_path path ≡ done (dir, name)
        → (path ≡ dir ++ (b'/' ∷ name)) × (has_byte b'/' name ≡ false)
    to e = elim (Option-cases (last_index b'/' path)) [
      | inl f ↦ absurd (panic-ne-done _ (sym (parse_of_none path f) ∙ e))
      | inr (i, f) ↦
          let q : ◌≡◌ {A = Text × Text} (take i path, drop (i + 1) path) (dir, name) =
            done-injective _ _ (sym (parse_of_some path i f) ∙ e) in
          subst (λ z. (path ≡ z.0 ++ (b'/' ∷ z.1)) × (has_byte b'/' z.1 ≡ false)) q
            (last_index_split b'/' path i f)
    ]

    from :
        (path ≡ dir ++ (b'/' ∷ name)) × (has_byte b'/' name ≡ false)
        → parse_header_file_path path ≡ done (dir, name)
    from (e, clean) =
        let (i, f, t, d) = last_index-append b'/' dir name clean in
        let e' : parse_header_file_path path ≡ parse_header_file_path (dir ++ (b'/' ∷ name)) =
          ap parse_header_file_path e in
        e' ∙ parse_of_some _ i f ∙ ap₂ (λ a b. done (a, b)) t d

-- The call panics exactly on the paths without a slash.
pub parse_header_file_path-panic :
    (path : Text) → (parse_header_file_path path ≡ panic) ↔ (has_byte b'/' path ≡ false)
parse_header_file_path-panic path = (
  (λ e. elim (Option-cases (last_index b'/' path)) [
    | inl f ↦ has_byte_of_last_index b'/' path f
    | inr (i, f) ↦ absurd (panic-ne-done _ (sym e ∙ parse_of_some path i f))
  ]),
  λ h. parse_of_none path (last_index-none b'/' path h),
)
