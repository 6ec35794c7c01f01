-- ===== src/Group/Storages.antt =====
-- `GetStorages`: sorted, complete, and the same whatever order the map is visited in.
use mathlib.Core.List.{Mem, Nodup, Perm, mem-map}
use mathlib.Core.List.Perm
use mathlib.Core.Logic.Iff
use mathlib.Core.Logic.{∥∥₁_elim}
use mathlib.Core.HLevel.{⊥_prop}
use mathlib.Core.Option.{some-ne-none}
use native.Mathlib.Nat.{ℕ_set}
use mathlib.Core.List.{mem-cons}
use mathlib.Core.Logic.Or
use eggdfs.Base.{
  List, [], ◌∷◌, refl, ap₂, inl, inr, Option-cases, ◌≡◌, ap, sym, ◌≢◌, ◌↔◌, Option, none, some, map,
  subst,
}
use eggdfs.Base.Text.{Text, Text-set}
use eggdfs.Base.Text.Order.{text_lt}
use eggdfs.Base.Dict.{lookup, values, Each, Each-lookup, Each-map, mem-key-values, key-values-Nodup}
use eggdfs.Base.Sort.Laws.{
  sort_strings_of_perm, sort_strings-perm, sort_strings-IsAscending, IsAscending,
}
use eggdfs.Base.Visit.{Visit}
use eggdfs.Group.{StorageServer, Group, IsWell, storage_keys, get_storages, get_storage}

module _ (v w : Visit StorageServer) (g : Group) where
  visits_agree : Perm (v.visit (values g.storages)) (w.visit (values g.storages))
  visits_agree = Perm.trans (v.visit-perm _) (Perm.symm (w.visit-perm _))

  storage_keys_any_order : storage_keys v g ≡ storage_keys w g
  unfolding storage_keys
  storage_keys_any_order = sort_strings_of_perm _ _ (Perm.map (λ s. s.addr) visits_agree)

  -- `GetStorages` returns the same list for any two orders in which Go visits the map.
  pub get_storages_any_order : get_storages v g ≡ get_storages w g
  unfolding get_storages
  get_storages_any_order = ap (map (λ k. lookup k g.storages)) storage_keys_any_order

keys-perm :
    (v : Visit StorageServer) (g : Group)
    → Perm (storage_keys v g) (map (λ s. s.addr) (values g.storages))
unfolding storage_keys
keys-perm v g = Perm.trans (sort_strings-perm _) (Perm.map (λ s. s.addr) (v.visit-perm _))

servers-set : IsSet (Option StorageServer)
servers-set = hlevel (ℕ_set, Text-set)

module _ (v : Visit StorageServer) (g : Group) (well : IsWell g) where
  keyed : Each (λ k s. s.addr ≡ k) g.storages
  keyed = Each-map (λ k s h. h.0) g.storages well.slots

  pub mem-storage_keys : (k : Text) → Mem k (storage_keys v g) ↔ (lookup k g.storages ≢ none)
  mem-storage_keys k =
      Iff.trans (Perm.mem_iff (keys-perm v g)) (mem-key-values (λ s. s.addr) k g.storages keyed)

  storage_keys-Nodup : Nodup (storage_keys v g)
  storage_keys-Nodup =
      Perm.nodup (Perm.symm (keys-perm v g))
        (key-values-Nodup (λ s. s.addr) g.storages well.distinct keyed)

  storage_keys-IsAscending : IsAscending text_lt (storage_keys v g)
  unfolding storage_keys
  storage_keys-IsAscending = sort_strings-IsAscending _

  -- For a well-formed group `GetStorages` has no nil pointer, and lists a server exactly when it is
  -- the one registered under its address.
  pub get_storages_complete :
      (¬ Mem none (get_storages v g))
      × ((s : StorageServer) → Mem (some s) (get_storages v g) ↔ (get_storage s.addr g ≡ some s))
  unfolding get_storages get_storage
  get_storages_complete = (
    (λ m. ∥∥₁_elim (mem-map.0 m) ⊥_prop (λ (k, i, e). (mem-storage_keys k).0 i e)),
    λ s. (
      (λ m. ∥∥₁_elim (mem-map.0 m) (servers-set _ _) λ (k, i, e).
          subst (λ j. lookup j g.storages ≡ some s) (sym (Each-lookup _ k g.storages s keyed e)) e),
      λ e. mem-map.1 ∣ (s.addr, (mem-storage_keys s.addr).1 (rw e (some-ne-none s)), e) ∣₁,
    ),
  )

  -- The servers of a list of registered addresses.
  found_servers :
      (ks : List Text)
      → ((k : Text) → Mem k ks → lookup k g.storages ≢ none)
      → (l : List StorageServer) × (map (λ k. lookup k g.storages) ks ≡ map some l)
        × (map (λ s. s.addr) l ≡ ks)
  found_servers [] all = ([], refl, refl)
  found_servers (k ∷ ks) all = elim (Option-cases (lookup k g.storages)) [
    | inl e ↦ absurd (all k (mem-cons.1 (Or.inl refl)) e)
    | inr (s, e) ↦
        let (l, found, keys) = found_servers ks (λ j m. all j (mem-cons.1 (Or.inr m))) in
        (s ∷ l, ap₂ ◌∷◌ e found, ap₂ ◌∷◌ (Each-lookup _ k g.storages s keyed e) keys)
  ]

  -- For a well-formed group `GetStorages` lists servers, no nil pointer, in the order of their
  -- addresses, and no address stands twice.
  pub get_storages-IsAscending :
      (l : List StorageServer) × (get_storages v g ≡ map some l)
      × IsAscending text_lt (map (λ s. s.addr) l)
      × Nodup (map (λ s. s.addr) l)
  unfolding get_storages
  get_storages-IsAscending =
      let (l, found, keys) = found_servers (storage_keys v g) (λ k. (mem-storage_keys k).0) in
      (
        l,
        found,
        subst (IsAscending text_lt) (sym keys) storage_keys-IsAscending,
        subst Nodup (sym keys) storage_keys-Nodup,
      )
