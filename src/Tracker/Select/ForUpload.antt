-- ===== src/Tracker/Select/ForUpload.antt =====
-- The group that an upload goes to.
use mathlib.Core.List.{
  Mem, mem-cons, not-mem-nil, reverse, reverse_aux, reverse-reverse, head-eq_of_cons-eq,
}
use mathlib.Core.List.Perm
use mathlib.Core.HLevel.{⊥_prop, Π_prop}
use mathlib.Core.Bool.{false≢true}
use mathlib.Core.Logic.Or
use eggdfs.Base.{
  ◌≡◌, ◌≢◌, ◌⊎◌, inl, inr, refl, ap, ◌∙◌, Bool, List, [], ◌∷◌, ok, err, ◌==◌, ==_iff, arith, false,
  Bool-cases, sym, subst, some,
}
use eggdfs.Base.Text.{Text, Text-set}
use eggdfs.Base.Dict.{Each-map, mem-values_of_lookup, lookup_of_mem-values}
use native.Mathlib.Nat.{ℕ_set}
use eggdfs.Base.Sort.{sift, sift_all, sort_slice}
use eggdfs.Base.Visit.{Visit}
use eggdfs.Common.Const.{group_active}
use eggdfs.Group.{Group}
use eggdfs.Tracker.{Tracker, IsSound, get_group, get_groups}
use eggdfs.Tracker.Select.{
  active_groups, cap_less, first_group, select_group_for_upload, no_available_group,
}

-- A comparison that never says yes leaves the order alone.
module _ {ℓ} {A : Type ℓ} (less : A → A → Bool) (never : (a b : A) → less a b ≡ false) where
  sift_never : (x : A) (l : List A) → sift less x l ≡ x ∷ l
  unfolding sift
  sift_never x [] = refl
  sift_never x (y ∷ ys) = rw never

  sift_all_never : (acc l : List A) → sift_all less acc l ≡ reverse_aux l acc
  unfolding sift_all
  sift_all_never acc [] = refl
  sift_all_never acc (x ∷ xs) = rw sift_never (sift_all_never (x ∷ acc) xs)

  sort_slice_never : (l : List A) → sort_slice less l ≡ l
  unfolding sort_slice
  sort_slice_never l = ap reverse (sift_all_never [] l) ∙ reverse-reverse l

pub Group-set : IsSet Group
Group-set = hlevel (ℕ_set, Text-set)

cap_less_never : (a b : Group) → cap_less a b ≡ false
unfolding cap_less
cap_less_never a b = ground arith

active_groups_sound :
    (l : List Group) (g : Group) (rest : List Group)
    → active_groups l ≡ g ∷ rest
    → Mem g l × (g.status ≡ group_active)
unfolding active_groups
active_groups_sound [] g rest e = cc
active_groups_sound (h ∷ l) g rest e = elim (Bool-cases (h.status == group_active)) [
  | inl up ↦
      let e' : h ∷ active_groups l ≡ g ∷ rest = rw up at e in
      let q : h ≡ g = head-eq_of_cons-eq e' in
      (mem-cons.1 (Or.inl (sym q)), subst (λ z. z.status ≡ group_active) q ((==_iff _ _).0 up))
  | inr down ↦
      let (m, a) = active_groups_sound l g rest (rw down at e) in (mem-cons.1 (Or.inr m), a)
]

cons_ne_nil : (g : Group) (l : List Group) → ◌≡◌ {A = List Group} (g ∷ l) [] → ⊥
cons_ne_nil g l e = cc

active_groups_complete :
    (l : List Group) → active_groups l ≡ [] → (g : Group) → Mem g l → g.status ≢ group_active
unfolding active_groups
active_groups_complete [] e g m = absurd (not-mem-nil m)
active_groups_complete (h ∷ l) e g m = elim (Bool-cases (h.status == group_active)) [
  | inl up ↦ (λ a. cons_ne_nil h _ (rw up at e))
  | inr down ↦
      Or.elim (Π_prop λ a. ⊥_prop) (mem-cons.0 m)
        (λ q. λ a.
          false≢true (
            sym down ∙ (==_iff h.status group_active).1 (ap (λ (z : Group). z.status) (sym q) ∙ a)))
        (active_groups_complete l (rw down at e) g)
]

first_cases :
    (l : List Group)
    → ((g : Group) × (rest : List Group) × (l ≡ g ∷ rest) × (first_group l ≡ ok g))
      ⊎ ((l ≡ []) × (first_group l ≡ err no_available_group))
unfolding first_group
first_cases [] = inr (refl, refl)
first_cases (g ∷ l) = inl (g, l, refl, refl)

module _ {S : Type 0} (v : Visit Group) (t : Tracker S) where
  -- The sort by capacity has no effect, with the insertion sort that Go runs on at most twelve
  -- groups: the upload goes to the first active group in the order in which Go visits the map,
  -- whatever the capacities of the groups are.
  pub select_group_for_upload-first :
      select_group_for_upload v t ≡ first_group (active_groups (get_groups v t))
  unfolding select_group_for_upload
  select_group_for_upload-first = ap first_group (sort_slice_never cap_less cap_less_never _)

  -- In a sound tracker an upload goes to a registered group that is active, and there is no group
  -- for it only where none is active.
  pub select_group_for_upload_lem :
      IsSound t
      → ((g : Group) × (select_group_for_upload v t ≡ ok g)
          × (get_group g.name t ≡ some g)
          × (g.status ≡ group_active))
        ⊎ ((select_group_for_upload v t ≡ err no_available_group)
            × ((n : Text) (g : Group) → get_group n t ≡ some g → g.status ≢ group_active))
  unfolding get_groups get_group
  select_group_for_upload_lem sound = elim (first_cases (active_groups (get_groups v t))) [
    | inl (g, rest, e, run) ↦
        let (m, a) = active_groups_sound _ g rest e in
        inl (
          g,
          select_group_for_upload-first ∙ run,
          lookup_of_mem-values (λ g. g.name) Group-set t.groups sound.distinct
              (Each-map (λ n g h. h.0) _ sound.entries) g ((Perm.mem_iff (v.visit-perm _)).0 m),
          a,
        )
    | inr (e, run) ↦ inr (
      select_group_for_upload-first ∙ run,
      λ n g at.
          active_groups_complete _ e g
            ((Perm.mem_iff (v.visit-perm _)).1 (mem-values_of_lookup n t.groups g at)),
    )
  ]
