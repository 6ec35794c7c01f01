-- ===== src/Disk/Distinct.antt =====
-- Every call leaves a disk that lists each path once, if it was one.
use mathlib.Core.Option.{some-injective, none-ne-some}
use eggdfs.Base.{◌≡◌, ◌⊎◌, sym, subst, inl, inr, some, List, [], ◌∷◌, Bool-cases, Option-cases}
use eggdfs.Base.Dict.{lookup, insert, NodupKeys, insert-NodupKeys}
use eggdfs.Base.Text.{Text}
use eggdfs.Disk.{Disk, file, dir, Faults, make_dir, make_dirs, mkdir_all, prefixes_from}

make_dir_ok :
    (f : Faults) (p : Text) (d d' : Disk)
    → make_dir f p d ≡ some d'
    → (d' ≡ d) ⊎ (d' ≡ insert p dir d)
unfolding make_dir
make_dir_ok f [] d d' e = inl (sym (some-injective d d' e))
make_dir_ok f (c ∷ p) d d' e = elim (Option-cases (lookup (c ∷ p) d)) [
  | inr (file x, at) ↦ absurd (none-ne-some d' (rw (make_dir, at) at e))
  | inr (dir, at) ↦ inl (sym (some-injective d d' (rw (make_dir, at) at e)))
  | inl gone ↦ elim (Bool-cases (f.no_make (c ∷ p))) [
    | inl refused ↦ absurd (none-ne-some d' (rw (make_dir, gone, refused) at e))
    | inr fine ↦ inr (sym (some-injective _ d' (rw (make_dir, gone, fine) at e)))
  ]
]

make_dirs-NodupKeys :
    (f : Faults) (ps : List Text) (d : Disk) → NodupKeys d → NodupKeys (make_dirs f ps d).0
unfolding make_dirs
make_dirs-NodupKeys f [] d u = u
make_dirs-NodupKeys f (p ∷ ps) d u = elim (Option-cases (make_dir f p d)) [
  | inl refused ↦ rw (make_dirs, refused) u
  | inr (d', e) ↦
      rw (make_dirs, e)
        (make_dirs-NodupKeys f ps d' (elim (make_dir_ok f p d d' e) [
          | inl same ↦ subst NodupKeys (sym same) u
          | inr made ↦ subst NodupKeys (sym made) (insert-NodupKeys p dir d u)
        ]))
]

pub mkdir_all-NodupKeys :
    (f : Faults) (p : Text) (d : Disk) → NodupKeys d → NodupKeys (mkdir_all f p d).0
unfolding mkdir_all
mkdir_all-NodupKeys f [] d u = u
mkdir_all-NodupKeys f (c ∷ p) d u = make_dirs-NodupKeys f (prefixes_from [] (c ∷ p)) d u
