-- ===== src/Storage/Place.antt =====
-- Where the system refuses nothing, a file with room for it is created, and its directory if need be.
pub mod After
use mathlib.Core.List.{Mem, mem-cons, not-mem-nil}
use mathlib.Core.Logic.Or
use mathlib.Core.Option.{some-injective, none-ne-some}
use native.Mathlib.Bridge.{le_prop}
use eggdfs.Base.{
  ℕ, ◌+◌, ◌≤◌, ◌≡◌, ◌≢◌, refl, sym, ap, ◌∙◌, inl, inr, true, false, some, List, [], ◌∷◌, ◌++◌, ◌==◌,
  arith, Bool-cases, Option-cases, length,
}
use eggdfs.Base.Dict.{lookup, insert, lookup-insert}
use eggdfs.Base.Text.{Text, text_eq_iff, has_byte}
use eggdfs.Disk.{
  Disk, file, dir, Faults, calm, stat, make_dir, make_dirs, mkdir_all, prefixes_from, create,
}
use eggdfs.Disk.Files.{create_succeeds}
use eggdfs.Disk.Laws.{IsFree, mkdir_all_lem, mem-prefixes_from}
use eggdfs.Storage.{slash}
use eggdfs.Storage.Upload.{ensure_dir}

pub length-append : (s t : Text) → length (s ++ t) ≡ length s + length t
length-append [] t = omega arith
length-append (a ∷ s) t = omega (arith, length-append s t)

pub prefixes_from-length :
    (before s p : Text) → Mem p (prefixes_from before s) → length p ≤ length before + length s
unfolding prefixes_from
prefixes_from-length before [] p m =
    Or.elim le_prop (mem-cons.0 m) (λ e. omega (arith, ap (length {A = ℕ}) e))
      (λ i. absurd (not-mem-nil i))
prefixes_from-length before (c ∷ s) p m = elim (Bool-cases (c == b'/')) [
  | inr other ↦
      let h = prefixes_from-length (before ++ (c ∷ [])) s p (rw other at m) in
      omega (arith, h, length-append before (c ∷ []))
  | inl slash ↦
      Or.elim le_prop (mem-cons.0 (rw slash at m)) (λ e. omega (arith, ap (length {A = ℕ}) e))
        (λ i.
          let h = prefixes_from-length (before ++ (c ∷ [])) s p i in
          omega (arith, h, length-append before (c ∷ [])))
]

make_dir_other :
    (f : Faults) (p : Text) (d d' : Disk) (q : Text)
    → make_dir f p d ≡ some d'
    → q ≢ p
    → lookup q d' ≡ lookup q d
unfolding make_dir
make_dir_other f [] d d' q e n = ap (lookup q) (sym (some-injective _ _ e))
make_dir_other f (c ∷ p) d d' q e n = elim (Option-cases (lookup (c ∷ p) d)) [
  | inr (file x, at) ↦ absurd (none-ne-some d' (rw (make_dir, at) at e))
  | inr (dir, at) ↦ ap (lookup q) (sym (some-injective _ _ (rw (make_dir, at) at e)))
  | inl gone ↦ elim (Bool-cases (f.no_make (c ∷ p))) [
    | inl refused ↦ absurd (none-ne-some d' (rw (make_dir, gone, refused) at e))
    | inr fine ↦
        ap (lookup q) (sym (some-injective _ _ (rw (make_dir, gone, fine) at e)))
        ∙ lookup-insert (c ∷ p) q dir d
        ∙ ground (arith, text_eq_iff (c ∷ p) q)
  ]
]

make_dirs_other :
    (f : Faults) (ps : List Text) (d : Disk) (q : Text)
    → ¬ Mem q ps
    → lookup q (make_dirs f ps d).0 ≡ lookup q d
unfolding make_dirs
make_dirs_other f [] d q n = refl
make_dirs_other f (p ∷ ps) d q n = elim (Option-cases (make_dir f p d)) [
  | inl refused ↦ rw (make_dirs, refused)
  | inr (d', e) ↦
      rw (make_dirs, e)
        (make_dirs_other f ps d' q (λ m. n (mem-cons.1 (Or.inr m)))
          ∙ make_dir_other f p d d' q e (λ same. n (mem-cons.1 (Or.inl same))))
]

mkdir_all_other :
    (f : Faults) (base name : Text) (d : Disk)
    → lookup (slash base name) (mkdir_all f base d).0 ≡ lookup (slash base name) d
unfolding mkdir_all slash
mkdir_all_other f [] name d = refl
mkdir_all_other f (c ∷ p) name d =
    let base : Text = c ∷ p in
    make_dirs_other f (prefixes_from [] base) d (base ++ (b'/' ∷ name)) (λ m.
      absurd (omega (arith, prefixes_from-length [] base _ m, length-append base (b'/' ∷ name))))

pub ensure_dir_other :
    (f : Faults) (base name : Text) (d : Disk)
    → lookup (slash base name) (ensure_dir f base d).0 ≡ lookup (slash base name) d
unfolding ensure_dir
ensure_dir_other f base name d = elim (Bool-cases (stat f base d)) [
  | inl there ↦ rw there
  | inr missing ↦ rw missing (mkdir_all_other f base name d)
]

-- Room for the file `name` in the directory `base`.
pub record HasRoom (base name : Text) (d : Disk) : Type 0 where
  pub rooted : base ≢ []
  pub free : IsFree base d
  pub slot : lookup (slash base name) d ≢ some dir
  pub plain : has_byte b'/' name ≡ false
  pub named : name ≢ []

stat→dir :
    (base : Text) (d : Disk)
    → IsFree base d
    → Mem base (prefixes_from [] base)
    → stat calm base d ≡ true
    → lookup base d ≡ some dir
unfolding stat
stat→dir base d free m h = elim (Option-cases (lookup base d)) [
  | inl gone ↦ cc (rw (stat, gone) at h)
  | inr (file x, at) ↦ absurd (free base m x at)
  | inr (dir, at) ↦ at
]

module _ (base name : Text) (d : Disk) (room : HasRoom base name d) where
  ensure_dir_made :
      ((ensure_dir calm base d).1 ≡ true) × (lookup base (ensure_dir calm base d).0 ≡ some dir)
  unfolding ensure_dir
  ensure_dir_made = elim (Bool-cases (stat calm base d)) [
    | inl there ↦ rw there (refl, stat→dir base d room.free (mem-prefixes_from [] base) there)
    | inr missing ↦
        let (grows, made, succeeds) = mkdir_all_lem calm base d in
        let done = succeeds (λ p. refl) room.free room.rooted in
        rw missing (done, made done room.rooted)
  ]

  -- The directory is there after `ensure_dir`, and the file can be created in it.
  pub HasRoom-create :
      ((ensure_dir calm base d).1 ≡ true)
      × (create calm (slash base name) (ensure_dir calm base d).0
          ≡ some (insert (slash base name) (file []) (ensure_dir calm base d).0))
  unfolding slash
  HasRoom-create =
      let (made, there) = ensure_dir_made in
      (
        made,
        create_succeeds calm base name (ensure_dir calm base d).0 (λ p. refl) room.plain room.named
            there (λ e. room.slot (sym (ensure_dir_other calm base name d) ∙ e)),
      )
