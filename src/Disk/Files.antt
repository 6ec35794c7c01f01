-- ===== src/Disk/Files.antt =====
-- One file: it is created in its directory, filled and removed.
use eggdfs.Base.{
  ◌≡◌, ◌≢◌, ◌⊎◌, refl, sym, ap, ◌∙◌, inl, inr, true, false, ◌||◌, not, none, some, [], ◌∷◌, ◌++◌,
  arith, Bool-cases, Option-cases,
}
use mathlib.Core.Option.{some-injective, none-ne-some}
use eggdfs.Base.Dict.{lookup, insert, remove, NodupKeys, lookup-insert, lookup-remove}
use eggdfs.Base.Text.{Text, text_eq, text_eq_iff, has_byte}
use eggdfs.Disk.{Disk, Entry, file, dir, Faults, is_dir, has_parent, create, remove_path, is_filled}
use eggdfs.Disk.Laws.{Grows}
use eggdfs.Util.Paths.{last_index-append}

-- Every path but one holds what it held.
abbrev pub SameBut : Text → Disk → Disk → Type 0
SameBut p d d' = (q : Text) → text_eq p q ≡ false → lookup q d' ≡ lookup q d

pub create_lem :
    (f : Faults) (p : Text) (d d' : Disk) → create f p d ≡ some d' → d' ≡ insert p (file []) d
unfolding create
create_lem f p d d' e = elim (Bool-cases (f.no_create p || not (has_parent p d) || is_dir p d)) [
  | inl refused ↦ absurd (none-ne-some d' (rw refused at e))
  | inr fine ↦ sym (some-injective _ _ (rw fine at e))
]

is_dir_of : (p : Text) (d : Disk) → lookup p d ≡ some dir → is_dir p d ≡ true
unfolding is_dir
is_dir_of p d at = rw (is_dir, at)

not_dir_of : (p : Text) (d : Disk) → lookup p d ≢ some dir → is_dir p d ≡ false
unfolding is_dir
not_dir_of p d n = elim (Option-cases (lookup p d)) [
  | inl gone ↦ rw (is_dir, gone)
  | inr (file x, at) ↦ rw (is_dir, at)
  | inr (dir, at) ↦ absurd (n at)
]

has_parent_of :
    (base name : Text) (d : Disk)
    → has_byte b'/' name ≡ false
    → name ≢ []
    → lookup base d ≡ some dir
    → has_parent (base ++ (b'/' ∷ name)) d ≡ true
unfolding has_parent
has_parent_of base name d plain named at =
    let (i, e, t, r) = last_index-append b'/' base name plain in
    let here : is_dir base d ≡ true = is_dir_of base d at in
    let full : text_eq name [] ≡ false = ground (arith, text_eq_iff name []) in
    rw (has_parent, e, t, r, here, full) (ground arith)

pub create_succeeds :
    (f : Faults) (base name : Text) (d : Disk)
    → ((p : Text) → f.no_create p ≡ false)
    → has_byte b'/' name ≡ false
    → name ≢ []
    → lookup base d ≡ some dir
    → lookup (base ++ (b'/' ∷ name)) d ≢ some dir
    → create f (base ++ (b'/' ∷ name)) d ≡ some (insert (base ++ (b'/' ∷ name)) (file []) d)
unfolding create
create_succeeds f base name d calm plain named at n =
    rw (calm, has_parent_of base name d plain named at, not_dir_of (base ++ (b'/' ∷ name)) d n)

pub insert-SameBut : (p : Text) (e : Entry) (d : Disk) → SameBut p d (insert p e d)
insert-SameBut p e d q differ = lookup-insert p q e d ∙ rw differ

pub SameBut-trans :
    (p : Text) (d d' d'' : Disk) → SameBut p d d' → SameBut p d' d'' → SameBut p d d''
SameBut-trans p d d' d'' g h q differ = h q differ ∙ g q differ

pub remove_path_ok :
    (f : Faults) (p : Text) (d d' : Disk) → remove_path f p d ≡ some d' → d' ≡ remove p d
unfolding remove_path
remove_path_ok f p d d' e = elim (Bool-cases (f.no_remove p)) [
  | inl refused ↦ absurd (none-ne-some d' (rw (remove_path, refused) at e))
  | inr fine ↦ elim (Option-cases (lookup p d)) [
    | inl gone ↦ absurd (none-ne-some d' (rw (remove_path, fine, gone) at e))
    | inr (file x, at) ↦ sym (some-injective _ _ (rw (remove_path, fine, at) at e))
    | inr (dir, at) ↦ elim (Bool-cases (is_filled p d)) [
      | inl full ↦ absurd (none-ne-some d' (rw (remove_path, fine, at, full) at e))
      | inr empty ↦ sym (some-injective _ _ (rw (remove_path, fine, at, empty) at e))
    ]
  ]
]

-- What `Remove` that succeeds takes away.
pub remove_path_lem :
    (f : Faults) (p : Text) (d d' : Disk)
    → NodupKeys d
    → remove_path f p d ≡ some d'
    → (lookup p d' ≡ none) × SameBut p d d'
remove_path_lem f p d d' u e =
    let q = remove_path_ok f p d d' e in
    (
      ap (lookup p) q ∙ lookup-remove p p d u ∙ rw ((text_eq_iff p p).1 refl),
      λ k differ. ap (lookup k) q ∙ lookup-remove p k d u ∙ rw differ,
    )

-- Every path but one holds what it held, or is a directory where nothing was.
abbrev pub GrowsBut : Text → Disk → Disk → Type 0
GrowsBut p d d' =
    (q : Text)
    → text_eq p q ≡ false
    → (lookup q d' ≡ lookup q d) ⊎ ((lookup q d ≡ none) × (lookup q d' ≡ some dir))

pub GrowsBut-of : (p : Text) (d d' d'' : Disk) → Grows d d' → SameBut p d' d'' → GrowsBut p d d''
GrowsBut-of p d d' d'' g h q differ = elim (g q) [
  | inl same ↦ inl (h q differ ∙ same)
  | inr (gone, made) ↦ inr (gone, h q differ ∙ made)
]
