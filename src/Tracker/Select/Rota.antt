-- ===== src/Tracker/Select/Rota.antt =====
-- The storage of an address, against the sorted list of the active servers.
use mathlib.Core.List.{
  Mem, Mem-prop, mem-cons, mem-map, not-mem-nil, Nodup, Pairwise, Pairwise-cons,
}
use mathlib.Core.List.Pairwise
use mathlib.Core.Logic.Or
use mathlib.Core.Logic.{∥∥₁_elim}
use mathlib.Core.HLevel.{×_prop}
use mathlib.Core.Option.{some-injective}
use native.Mathlib.Nat.{ℕ_set}
use eggdfs.Base.{
  ℕ, Bool, ◌%◌, ◌≡◌, ◌⊎◌, inl, inr, refl, ap, sym, ◌∙◌, subst, some, List, [], ◌∷◌, map, done,
  ◌>>=◌, ok, err, ◌==◌, ==_iff, if◌then◌else◌, length, get_elem?, Bool-cases, ◌↔◌,
}
use eggdfs.Base.Text.{Text, Text-set}
use eggdfs.Base.Text.Order.{text_lt, text_lt_asym, text_lt_antisymm}
use eggdfs.Base.Sort.Laws.{IsAscending}
use eggdfs.Base.Sort.Unique.{IsStrict, IsStrict-eq_of_mem}
use eggdfs.Base.Visit.{Visit}
use eggdfs.Common.Const.{storage_active}
use eggdfs.Group.{StorageServer, Group, IsWell, get_storages, get_storage}
use eggdfs.Group.Storages.{get_storages_complete, get_storages-IsAscending}
use eggdfs.Tracker.Select.{active_storages, pick, select_storage_ip_hash, no_available_storage}
use eggdfs.Tracker.Select.ByAddress.{pick_lem}

abbrev before : StorageServer → StorageServer → Bool
before a b = text_lt a.addr b.addr

-- The active servers of a group, in the order of their addresses.
pub record IsRota (g : Group) (l : List StorageServer) : Type 0 where
  pub members :
      (s : StorageServer)
      → Mem s l ↔ ((get_storage s.addr g ≡ some s) × (s.status ≡ storage_active))
  pub ordered : IsStrict before l

server-set : IsSet StorageServer
server-set = hlevel (ℕ_set, Text-set)

keys-IsStrict : (ks : List Text) → IsAscending text_lt ks → Nodup ks → IsStrict text_lt ks
keys-IsStrict [] a n = Pairwise.nil
keys-IsStrict (k ∷ ks) a n = Pairwise-cons.1 (
  (λ j m. elim (Bool-cases (text_lt k j)) [
    | inl h ↦ h
    | inr h ↦
        absurd ((Pairwise-cons.0 n).0 j m (text_lt_antisymm k j h ((Pairwise-cons.0 a).0 j m)))
  ]),
  keys-IsStrict ks (Pairwise-cons.0 a).1 (Pairwise-cons.0 n).1,
)

unfoldable active_of : List StorageServer → List StorageServer
active_of [] = []
active_of (s ∷ l) = let rest = active_of l in if s.status == storage_active then s ∷ rest else rest

active_storages-active_of :
    (l : List StorageServer) → active_storages (map some l) ≡ done (active_of l)
unfolding active_storages active_of
active_storages-active_of [] = refl
active_storages-active_of (s ∷ l) = rw (active_storages-active_of l)

mem-active_of :
    (s : StorageServer) (l : List StorageServer)
    → Mem s (active_of l) ↔ (Mem s l × (s.status ≡ storage_active))
unfolding active_of
mem-active_of s [] = (λ m. absurd (not-mem-nil m), λ h. absurd (not-mem-nil h.0))
mem-active_of s (r ∷ l) = elim (Bool-cases (r.status == storage_active)) [
  | inl up ↦ rw up (
    (λ m.
        Or.elim (×_prop Mem-prop (ℕ_set _ _)) (mem-cons.0 m)
          (λ e. (mem-cons.1 (Or.inl e), ap (λ (z : StorageServer). z.status) e ∙ (==_iff _ _).0 up))
          (λ i. let (j, a) = (mem-active_of s l).0 i in (mem-cons.1 (Or.inr j), a))),
    (λ h.
        Or.elim Mem-prop (mem-cons.0 h.0) (λ e. mem-cons.1 (Or.inl e))
          (λ i. mem-cons.1 (Or.inr ((mem-active_of s l).1 (i, h.1))))),
  )
  | inr down ↦ rw down (
    (λ m. let (j, a) = (mem-active_of s l).0 m in (mem-cons.1 (Or.inr j), a)),
    (λ h.
        Or.elim Mem-prop (mem-cons.0 h.0)
          (λ e. cc (
            down,
            (==_iff r.status storage_active).1 (ap (λ (z : StorageServer). z.status) (sym e) ∙ h.1),
          ))
          (λ i. (mem-active_of s l).1 (i, h.1))),
  )
]

active_of-IsStrict : (l : List StorageServer) → IsStrict before l → IsStrict before (active_of l)
unfolding active_of
active_of-IsStrict [] a = Pairwise.nil
active_of-IsStrict (s ∷ l) a =
    let rest = active_of-IsStrict l (Pairwise-cons.0 a).1 in
    elim (Bool-cases (s.status == storage_active)) [
      | inl up ↦
          rw up
            (Pairwise-cons.1 ((λ b m. (Pairwise-cons.0 a).0 b ((mem-active_of b l).0 m).0), rest))
      | inr down ↦ rw down rest
    ]

mem-some : (s : StorageServer) (l : List StorageServer) → Mem (some s) (map some l) ↔ Mem s l
mem-some s l = (
  (λ m.
      ∥∥₁_elim (mem-map.0 m) Mem-prop (λ (r, i, e). subst (λ z. Mem z l) (some-injective _ _ e) i)),
  λ m. mem-map.1 ∣ (s, m, refl) ∣₁,
)

-- The loop over the storages leaves the listing of the active servers.
pub rota :
    (v : Visit StorageServer) (g : Group)
    → IsWell g
    → (l : List StorageServer) × (active_storages (get_storages v g) ≡ done l) × IsRota g l
rota v g well =
    let (l, found, ordered, once) = get_storages-IsAscending v g well in
    let listed = (get_storages_complete v g well).1 in
    (
      active_of l,
      ap active_storages found ∙ active_storages-active_of l,
      record {
        members = λ s. (
          (λ m.
              let (i, a) = (mem-active_of s l).0 m in
              ((listed s).0 (subst (Mem (some s)) (sym found) ((mem-some s l).1 i)), a)),
          (λ h.
              (mem-active_of s l).1
                ((mem-some s l).0 (subst (Mem (some s)) found ((listed s).1 h.0)), h.1)),
        );
        ordered =
            active_of-IsStrict l
              (Pairwise.of_map' (λ (s : StorageServer). s.addr) (keys-IsStrict _ ordered once));
      },
    )

rota_unique : (g : Group) (l m : List StorageServer) → IsRota g l → IsRota g m → l ≡ m
rota_unique g l m a b =
    IsStrict-eq_of_mem before (λ r s. text_lt_asym r.addr s.addr) server-set l m a.ordered b.ordered
      (λ s. ((λ i. (b.members s).1 ((a.members s).0 i)), λ i. (a.members s).1 ((b.members s).0 i)))

-- List the active servers of a well-formed group by address: the selection for an address is the
-- one whose position is the hash of the address, modulo the length, and it fails where the list is
-- empty.
pub select_storage_ip_hash-rota :
    (v : Visit StorageServer) (hash : Text → ℕ) (ip : Text) (g : Group) (l : List StorageServer)
    → IsWell g
    → IsRota g l
    → ((l ≡ []) × (select_storage_ip_hash v hash ip g ≡ done (err no_available_storage)))
      ⊎ ((s : StorageServer) × (get_elem? l (hash ip % length l) ≡ some s)
          × (select_storage_ip_hash v hash ip g ≡ done (ok s)))
unfolding select_storage_ip_hash
select_storage_ip_hash-rota v hash ip g l well listed =
    let (m, run, r) = rota v g well in
    let run' : (active_storages (get_storages v g) >>= pick (hash ip)) ≡ pick (hash ip) l =
      ap (λ o. o >>= pick (hash ip)) run ∙ ap (pick (hash ip)) (rota_unique g m l r listed) in
    elim (pick_lem (hash ip) l) [
      | inl (s, at, e, i) ↦ inr (s, at, run' ∙ e)
      | inr (empty, e) ↦ inl (empty, run' ∙ e)
    ]
