-- ===== src/Base/Dict.antt =====
-- A Go map with string keys: an association list. A `range` visits its values in any order
-- (`Visit`), so the order of the list shows nowhere.
use mathlib.Core.List.{List, [], ◌∷◌, map, Mem, mem-cons, not-mem-nil, Nodup, Nodup-cons, Pairwise}
use mathlib.Core.Logic.Or
use mathlib.Core.Path.{◌≡◌, refl, ap, ◌∙◌, sym, subst, fun_ext}
use mathlib.Core.Logic.{◌≢◌, ◌↔◌, inl, inr}
use mathlib.Core.Option.{Option, none, some, some-injective, some-ne-none, none-ne-some}
use mathlib.Core.Option
use native.Mathlib.Omega.{arith}
use eggdfs.Base.Tests.{if◌then◌else◌, Bool-cases, Option-cases}
use eggdfs.Base.Text.{Text, text_eq, text_eq_iff, text_eq_refl}

abbrev pub Dict {ℓ} : Type ℓ → Type ℓ
Dict V = List (Text × V)

module _ {ℓ} {V : Type ℓ} where
  -- `v, ok := m[k]`
  unfoldable pub lookup : Text → Dict V → Option V
  lookup k [] = none
  lookup k ((j, v) ∷ m) = if text_eq j k then some v else lookup k m

  -- `m[k] = v`
  unfoldable pub insert : Text → V → Dict V → Dict V
  insert k v [] = (k, v) ∷ []
  insert k v ((j, w) ∷ m) = if text_eq j k then (k, v) ∷ m else (j, w) ∷ insert k v m

  -- `delete(m, k)`; the keys of a map are distinct.
  unfoldable pub remove : Text → Dict V → Dict V
  remove k [] = []
  remove k ((j, w) ∷ m) = if text_eq j k then m else (j, w) ∷ remove k m

  unfoldable pub values : Dict V → List V
  values [] = []
  values ((j, v) ∷ m) = v ∷ values m

  -- No key stands twice.
  abbrev pub NodupKeys : Dict V → Type ℓ
  NodupKeys [] = Unit
  NodupKeys ((j, v) ∷ m) = (lookup j m ≡ none) × NodupKeys m

  pub lookup-nil : (k : Text) → lookup k [] ≡ none
  unfolding lookup
  lookup-nil k = refl

  lookup-cons :
      (k j : Text) (v : V) (m : Dict V)
      → lookup k ((j, v) ∷ m) ≡ (if text_eq j k then some v else lookup k m)
  unfolding lookup
  lookup-cons k j v m = refl

  pub lookup-insert :
      (k j : Text) (v : V) (m : Dict V)
      → lookup j (insert k v m) ≡ (if text_eq k j then some v else lookup j m)
  unfolding lookup insert
  lookup-insert k j v [] = refl
  lookup-insert k j v ((i, w) ∷ m) =
      ground (arith, text_eq_iff k j, text_eq_iff i k, text_eq_iff i j, lookup-insert k j v m)

  pub lookup-insert_self : (k : Text) (v : V) (m : Dict V) → lookup k (insert k v m) ≡ some v
  lookup-insert_self k v m = simp (lookup-insert, text_eq_refl)

  lookup-insert_ne :
      (k j : Text) (v : V) (m : Dict V) → k ≢ j → lookup j (insert k v m) ≡ lookup j m
  lookup-insert_ne k j v m h = ground (arith, lookup-insert k j v m, text_eq_iff k j)

  pub insert-NodupKeys : (k : Text) (v : V) (m : Dict V) → NodupKeys m → NodupKeys (insert k v m)
  unfolding insert lookup
  insert-NodupKeys k v [] u = (refl, tt)
  insert-NodupKeys k v ((j, w) ∷ m) (fresh, u) = elim (Bool-cases (text_eq j k)) [
    | inl same ↦ rw same (rw ((text_eq_iff j k).0 same) at fresh, u)
    | inr differ ↦ rw differ (
      lookup-insert_ne k j v m (λ e. ground (arith, text_eq_iff j k)) ∙ fresh,
      insert-NodupKeys k v m u,
    )
  ]

  pub lookup-remove :
      (k j : Text) (m : Dict V)
      → NodupKeys m
      → lookup j (remove k m) ≡ (if text_eq k j then none else lookup j m)
  unfolding lookup remove
  lookup-remove k j [] u = ground arith
  lookup-remove k j ((i, w) ∷ m) (fresh, u) =
      ground (arith, text_eq_iff k j, text_eq_iff i k, text_eq_iff i j, lookup-remove k j m u)

  pub remove-NodupKeys : (k : Text) (m : Dict V) → NodupKeys m → NodupKeys (remove k m)
  unfolding remove
  remove-NodupKeys k [] u = tt
  remove-NodupKeys k ((j, w) ∷ m) (fresh, u) = elim (Bool-cases (text_eq j k)) [
    | inl same ↦ rw same u
    | inr differ ↦ rw differ (ground (arith, lookup-remove k j m u), remove-NodupKeys k m u)
  ]

  -- Every entry has `P`.
  abbrev pub Each {κ} : (Text → V → Type κ) → Dict V → Type κ
  Each P [] = Unit
  Each P ((j, v) ∷ m) = P j v × Each P m

  pub Each-insert {κ} :
      (P : Text → V → Type κ) (k : Text) (v : V) (m : Dict V)
      → Each P m
      → P k v
      → Each P (insert k v m)
  unfolding insert
  Each-insert P k v [] h p = (p, tt)
  Each-insert P k v ((j, w) ∷ m) (q, h) p = elim (Bool-cases (text_eq j k)) [
    | inl same ↦ rw same (p, h)
    | inr differ ↦ rw differ (q, Each-insert P k v m h p)
  ]

  pub Each-remove {κ} :
      (P : Text → V → Type κ) (k : Text) (m : Dict V) → Each P m → Each P (remove k m)
  unfolding remove
  Each-remove P k [] h = tt
  Each-remove P k ((j, w) ∷ m) (q, h) = elim (Bool-cases (text_eq j k)) [
    | inl same ↦ rw same h
    | inr differ ↦ rw differ (q, Each-remove P k m h)
  ]

  pub Each-lookup {κ} :
      (P : Text → V → Type κ) (k : Text) (m : Dict V) (v : V)
      → Each P m
      → lookup k m ≡ some v
      → P k v
  unfolding lookup
  Each-lookup P k [] v h e = cc
  Each-lookup P k ((j, w) ∷ m) v (q, h) e = elim (Bool-cases (text_eq j k)) [
    | inl same ↦
        subst (P k) (some-injective _ _ (rw same at e))
          (subst (λ z. P z w) ((text_eq_iff j k).0 same) q)
    | inr differ ↦ Each-lookup P k m v h (rw differ at e)
  ]

  -- The values of a map, and what a key finds, are the same things.
  pub mem-values_of_lookup :
      (k : Text) (m : Dict V) (v : V) → lookup k m ≡ some v → Mem v (values m)
  unfolding lookup values
  mem-values_of_lookup k [] v e = cc
  mem-values_of_lookup k ((j, w) ∷ m) v e = elim (Bool-cases (text_eq j k)) [
    | inl same ↦ mem-cons.1 (Or.inl (sym (some-injective _ _ (rw same at e))))
    | inr differ ↦ mem-cons.1 (Or.inr (mem-values_of_lookup k m v (rw differ at e)))
  ]

  -- Where each value knows its key, the keys of the values are the keys of the map.
  module _ (key : V → Text) where
    pub mem-key-values :
        (k : Text) (m : Dict V)
        → Each (λ j v. key v ≡ j) m
        → Mem k (map key (values m)) ↔ (lookup k m ≢ none)
    unfolding lookup values
    mem-key-values k [] h = (λ m. absurd (not-mem-nil m), λ n. absurd (n refl))
    mem-key-values k ((j, v) ∷ m) (e, h) = elim (Bool-cases (text_eq j k)) [
      | inl same ↦ (
        λ _. rw same (some-ne-none v),
        λ _. mem-cons.1 (Or.inl (sym (e ∙ (text_eq_iff j k).0 same))),
      )
      | inr differ ↦ (
        λ i. rw differ (
            Or.elim (λ f g. fun_ext (λ x. absurd (f x))) (mem-cons.0 i)
              (λ q. cc (differ, (text_eq_iff j k).1 (sym (q ∙ e)))) (mem-key-values k m h).0),
        λ n. mem-cons.1 (Or.inr ((mem-key-values k m h).1 (rw differ at n))),
      )
    ]

    pub key-values-Nodup :
        (m : Dict V) → NodupKeys m → Each (λ j v. key v ≡ j) m → Nodup (map key (values m))
    unfolding values
    key-values-Nodup [] u h = Pairwise.nil
    key-values-Nodup ((j, v) ∷ m) (fresh, u) (e, h) =
        Nodup-cons.1 ((λ i. (mem-key-values (key v) m h).0 i (rw e fresh)), key-values-Nodup m u h)

    later :
        (j : Text) (w : V) (m : Dict V)
        → lookup j m ≡ none
        → (v : V) → lookup (key v) m ≡ some v
        → lookup (key v) ((j, w) ∷ m) ≡ some v
    unfolding lookup
    later j w m fresh v e = elim (Bool-cases (text_eq j (key v))) [
      | inl same ↦
          absurd (none-ne-some v (sym fresh ∙ ap (λ z. lookup z m) ((text_eq_iff _ _).0 same) ∙ e))
      | inr differ ↦ rw differ e
    ]

    pub lookup_of_mem-values :
        IsSet V
        → (m : Dict V) → NodupKeys m
        → Each (λ j v. key v ≡ j) m
        → (v : V) → Mem v (values m)
        → lookup (key v) m ≡ some v
    unfolding lookup values
    lookup_of_mem-values s [] u h v i = absurd (not-mem-nil i)
    lookup_of_mem-values s ((j, w) ∷ m) (fresh, u) (e, h) v i =
        Or.elim (Option.is_set s _ _) (mem-cons.0 i)
          (λ q. subst (λ z. lookup (key z) ((j, w) ∷ m) ≡ some z) (sym q) (rw (e, text_eq_refl)))
          (λ i'. later j w m fresh v (lookup_of_mem-values s m u h v i'))

  pub lookup-ne-none : (k : Text) (m : Dict V) → lookup k m ≢ none → (v : V) × (lookup k m ≡ some v)
  lookup-ne-none k m n = elim (Option-cases (lookup k m)) [
    | inl e ↦ absurd (n e)
    | inr found ↦ found
  ]

  pub Each-map {κ μ} :
      {P : Text → V → Type κ} {Q : Text → V → Type μ}
      → ((k : Text) (v : V) → P k v → Q k v)
      → (m : Dict V) → Each P m
      → Each Q m
  Each-map f [] h = tt
  Each-map f ((j, v) ∷ m) (p, h) = (f j v p, Each-map f m h)
