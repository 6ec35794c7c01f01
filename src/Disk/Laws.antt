-- ===== src/Disk/Laws.antt =====
-- What the calls leave of a disk: a directory that is made hides no entry, and a file that is created or
-- removed changes one path.
use mathlib.Core.List.{Mem, mem-cons, not-mem-nil, append-nil, append_assoc}
use mathlib.Core.Logic.Or
use mathlib.Core.Bool.{false≢true}
use mathlib.Core.Option.{some-injective, some-ne-none, none-ne-some}
use eggdfs.Base.{
  ◌≡◌, ◌≢◌, ◌⊎◌, refl, sym, ap, ◌∙◌, subst, inl, inr, true, false, Option, none, some, List, [],
  ◌∷◌, ◌++◌, ◌==◌, Bool-cases, Option-cases,
}
use eggdfs.Base.Dict.{lookup, insert, lookup-insert, lookup-insert_self}
use eggdfs.Base.Text.{Text, text_eq, text_eq_iff, Text-set}
use eggdfs.Disk.{Disk, Entry, file, dir, Faults, make_dir, make_dirs, mkdir_all, prefixes_from}

entries-set : IsSet (Option Entry)
entries-set = hlevel (Text-set)

-- Every path holds what it held, or is a directory where nothing was.
abbrev pub Grows : Disk → Disk → Type 0
Grows d d' =
    (q : Text) → (lookup q d' ≡ lookup q d) ⊎ ((lookup q d ≡ none) × (lookup q d' ≡ some dir))

pub Grows-refl : (d : Disk) → Grows d d
Grows-refl d q = inl refl

pub Grows-trans : (d d' d'' : Disk) → Grows d d' → Grows d' d'' → Grows d d''
Grows-trans d d' d'' g h q = elim (g q) [
  | inl same ↦ elim (h q) [
    | inl same' ↦ inl (same' ∙ same)
    | inr (gone, made) ↦ inr (sym same ∙ gone, made)
  ]
  | inr (gone, made) ↦ elim (h q) [
    | inl same' ↦ inr (gone, same' ∙ made)
    | inr (none', made') ↦ absurd (some-ne-none dir (sym made ∙ none'))
  ]
]

pub Grows-keeps :
    (d d' : Disk) → Grows d d' → (q : Text) (e : Entry) → lookup q d ≡ some e → lookup q d' ≡ some e
Grows-keeps d d' g q e at = elim (g q) [
  | inl same ↦ same ∙ at
  | inr (gone, made) ↦ absurd (none-ne-some e (sym gone ∙ at))
]

insert-Grows : (p : Text) (d : Disk) → lookup p d ≡ none → Grows d (insert p dir d)
insert-Grows p d gone q = elim (Bool-cases (text_eq p q)) [
  | inl same ↦ inr (
    subst (λ z. lookup z d ≡ none) ((text_eq_iff p q).0 same) gone,
    lookup-insert p q dir d ∙ rw same,
  )
  | inr differ ↦ inl (lookup-insert p q dir d ∙ rw differ)
]

make_dir-Grows :
    (f : Faults) (p : Text) (d d' : Disk)
    → make_dir f p d ≡ some d'
    → Grows d d' × (p ≢ [] → lookup p d' ≡ some dir)
unfolding make_dir
make_dir-Grows f [] d d' e = (subst (Grows d) (cc) (Grows-refl d), λ n. absurd (n refl))
make_dir-Grows f (c ∷ p) d d' e = elim (Option-cases (lookup (c ∷ p) d)) [
  | inr (file x, at) ↦ absurd (none-ne-some d' (rw (make_dir, at) at e))
  | inr (dir, at) ↦
      let q : d ≡ d' = cc (rw (make_dir, at) at e) in
      (subst (Grows d) q (Grows-refl d), λ n. subst (λ z. lookup (c ∷ p) z ≡ some dir) q at)
  | inl gone ↦ elim (Bool-cases (f.no_make (c ∷ p))) [
    | inl refused ↦ absurd (none-ne-some d' (rw (make_dir, gone, refused) at e))
    | inr fine ↦
        let q : insert (c ∷ p) dir d ≡ d' = cc (rw (make_dir, gone, fine) at e) in
        (
          subst (Grows d) q (insert-Grows (c ∷ p) d gone),
          λ n. subst (λ z. lookup (c ∷ p) z ≡ some dir) q (lookup-insert_self (c ∷ p) dir d),
        )
  ]
]

pub make_dirs-Grows : (f : Faults) (ps : List Text) (d : Disk) → Grows d (make_dirs f ps d).0
unfolding make_dirs
make_dirs-Grows f [] d = Grows-refl d
make_dirs-Grows f (p ∷ ps) d = elim (Option-cases (make_dir f p d)) [
  | inl refused ↦ rw (make_dirs, refused) (Grows-refl d)
  | inr (d', e) ↦
      rw (make_dirs, e) (Grows-trans d d' _ (make_dir-Grows f p d d' e).0 (make_dirs-Grows f ps d'))
]

pub make_dirs_made :
    (f : Faults) (ps : List Text) (d : Disk) (p : Text)
    → (make_dirs f ps d).1 ≡ true
    → Mem p ps
    → p ≢ []
    → lookup p (make_dirs f ps d).0 ≡ some dir
unfolding make_dirs
make_dirs_made f [] d p h m n = absurd (not-mem-nil m)
make_dirs_made f (q ∷ ps) d p h m n = elim (Option-cases (make_dir f q d)) [
  | inl refused ↦ absurd (false≢true (rw (make_dirs, refused) at h))
  | inr (d', e) ↦
      let h' : (make_dirs f ps d').1 ≡ true = rw (make_dirs, e) at h in
      rw (make_dirs, e)
        (Or.elim (entries-set _ _) (mem-cons.0 m)
          (λ same.
            Grows-keeps d' _ (make_dirs-Grows f ps d') p dir
              ((make_dir-Grows f p d d' (ap (λ z. make_dir f z d) same ∙ e)).1 n))
          (λ i. make_dirs_made f ps d' p h' i n))
]

-- No file stands on the way to a path or at it.
abbrev pub IsFree : Text → Disk → Type 0
IsFree path d = (p : Text) → Mem p (prefixes_from [] path) → (x : Text) → lookup p d ≢ some (file x)

file-ne-dir : (x : Text) → file x ≢ dir
file-ne-dir x e = cc

make_dir_succeeds :
    (f : Faults) (p : Text) (d : Disk)
    → ((q : Text) → f.no_make q ≡ false)
    → ((x : Text) → lookup p d ≢ some (file x))
    → (d' : Disk) × (make_dir f p d ≡ some d')
unfolding make_dir
make_dir_succeeds f [] d calm free = (d, refl)
make_dir_succeeds f (c ∷ p) d calm free = elim (Option-cases (lookup (c ∷ p) d)) [
  | inr (file x, at) ↦ absurd (free x at)
  | inr (dir, at) ↦ (d, rw (make_dir, at))
  | inl gone ↦ (insert (c ∷ p) dir d, rw (make_dir, gone, calm))
]

make_dirs_succeeds :
    (f : Faults) (ps : List Text) (d : Disk)
    → ((p : Text) → f.no_make p ≡ false)
    → ((p : Text) → Mem p ps → (x : Text) → lookup p d ≢ some (file x))
    → (make_dirs f ps d).1 ≡ true
unfolding make_dirs
make_dirs_succeeds f [] d calm free = refl
make_dirs_succeeds f (p ∷ ps) d calm free =
    let (d', e) = make_dir_succeeds f p d calm (free p (mem-cons.1 (Or.inl refl))) in
    rw (make_dirs, e)
      (make_dirs_succeeds f ps d' calm λ q m x at. elim ((make_dir-Grows f p d d' e).0 q) [
        | inl same ↦ free q (mem-cons.1 (Or.inr m)) x (sym same ∙ at)
        | inr (gone, made) ↦ file-ne-dir x (some-injective _ _ (sym at ∙ made))
      ])

pub mem-prefixes_from : (before s : Text) → Mem (before ++ s) (prefixes_from before s)
unfolding prefixes_from
mem-prefixes_from before [] = mem-cons.1 (Or.inl (append-nil before))
mem-prefixes_from before (c ∷ s) =
    let m : Mem (before ++ (c ∷ s)) (prefixes_from (before ++ (c ∷ [])) s) =
      subst (λ z. Mem z (prefixes_from (before ++ (c ∷ [])) s)) (append_assoc before (c ∷ []) s)
        (mem-prefixes_from (before ++ (c ∷ [])) s) in
    elim (Bool-cases (c == b'/')) [
      | inl slash ↦ rw slash (mem-cons.1 (Or.inr m))
      | inr other ↦ rw other m
    ]

-- `MkdirAll` only adds directories. Where it succeeds the path is one, and it does succeed where the
-- system allows it, no file is in the way and the path is not empty.
pub mkdir_all_lem :
    (f : Faults) (path : Text) (d : Disk)
    → Grows d (mkdir_all f path d).0
      × ((mkdir_all f path d).1 ≡ true → path ≢ [] → lookup path (mkdir_all f path d).0 ≡ some dir)
      × (((p : Text) → f.no_make p ≡ false)
          → IsFree path d
          → path ≢ []
          → (mkdir_all f path d).1 ≡ true)
unfolding mkdir_all
mkdir_all_lem f [] d = (Grows-refl d, (λ h n. absurd (n refl)), λ calm free n. absurd (n refl))
mkdir_all_lem f (c ∷ p) d = (
  make_dirs-Grows f (prefixes_from [] (c ∷ p)) d,
  (λ h n. make_dirs_made f (prefixes_from [] (c ∷ p)) d (c ∷ p) h (mem-prefixes_from [] (c ∷ p)) n),
  λ calm free n. make_dirs_succeeds f (prefixes_from [] (c ∷ p)) d calm free,
)
