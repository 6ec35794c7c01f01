-- ===== src/Tracker/Select/ByAddress.antt =====
-- The storage that a client's address selects.
use mathlib.Core.List.{Mem, Mem-prop, mem-cons, not-mem-nil}
use mathlib.Core.Logic.Or
use native.Mathlib.Nat.{ℕ_set}
use eggdfs.Base.{
  ℕ, zero, suc, ◌%◌, ◌<◌, ◌≡◌, ◌≢◌, ◌⊎◌, inl, inr, refl, ap, sym, ◌∙◌, subst, Option, none, some,
  List, [], ◌∷◌, done, ◌>>=◌, ok, err, ◌==◌, ==_iff, if◌then◌else◌, length, get_elem?, arith, true,
  false, Bool-cases,
}
use mathlib.Core.Option.{some-injective}
use mathlib.Core.HLevel.{×_prop}
use eggdfs.Base.Text.{Text}
use eggdfs.Base.Visit.{Visit}
use eggdfs.Common.Const.{storage_active}
use eggdfs.Group.{StorageServer, Group, IsWell, get_storages, get_storage}
use eggdfs.Group.Storages.{get_storages_any_order, get_storages_complete}
use eggdfs.Tracker.Select.{
  active_storages, at_index, pick, select_storage_ip_hash, no_available_storage,
}

-- The active servers of a list of pointers.
record Actives (l : List (Option StorageServer)) (found : List StorageServer) : Type 0 where
  sound : (s : StorageServer) → Mem s found → Mem (some s) l × (s.status ≡ storage_active)
  complete : (s : StorageServer) → Mem (some s) l → s.status ≡ storage_active → Mem s found

Actives-cons :
    (s : StorageServer) (l : List (Option StorageServer)) (rest : List StorageServer)
    → Actives l rest
    → ((s.status == storage_active) ≡ true) ⊎ ((s.status == storage_active) ≡ false)
    → Actives (some s ∷ l) (if s.status == storage_active then s ∷ rest else rest)
Actives-cons s l rest a (inl up) = rw up (record {
  sound = λ r m.
      Or.elim (×_prop Mem-prop (ℕ_set _ _)) (mem-cons.0 m)
        (λ e. (mem-cons.1 (Or.inl (ap some e)), rw e ((==_iff _ _).0 up)))
        (λ i. (mem-cons.1 (Or.inr (a.sound r i).0), (a.sound r i).1));
  complete = λ r m h.
      Or.elim Mem-prop (mem-cons.0 m) (λ e. mem-cons.1 (Or.inl (some-injective _ _ e)))
        (λ i. mem-cons.1 (Or.inr (a.complete r i h)));
})
Actives-cons s l rest a (inr down) = rw down (record {
  sound = λ r m. (mem-cons.1 (Or.inr (a.sound r m).0), (a.sound r m).1);
  complete = λ r m h.
      Or.elim Mem-prop (mem-cons.0 m) (λ e. absurd (refused r (some-injective _ _ e) h))
        (λ i. a.complete r i h);
})
  where
    refused : (r : StorageServer) → r ≡ s → r.status ≡ storage_active → ⊥
    refused r e h = cc (
      down,
      (==_iff s.status storage_active).1 (ap (λ (z : StorageServer). z.status) (sym e) ∙ h),
    )

active_storages_lem :
    (l : List (Option StorageServer))
    → ¬ Mem none l
    → (found : List StorageServer) × (active_storages l ≡ done found) × Actives l found
unfolding active_storages
active_storages_lem [] n = (
  [],
  refl,
  record { sound = λ s m. absurd (not-mem-nil m); complete = λ s m. absurd (not-mem-nil m) },
)
active_storages_lem (none ∷ l) n = absurd (n (mem-cons.1 (Or.inl refl)))
active_storages_lem (some s ∷ l) n =
    let (rest, run, a) = active_storages_lem l (λ m. n (mem-cons.1 (Or.inr m))) in
    (
      if s.status == storage_active then s ∷ rest else rest,
      ap (λ o. o >>= λ r. done (if s.status == storage_active then s ∷ r else r)) run,
      Actives-cons s l rest a (Bool-cases (s.status == storage_active)),
    )

get_elem?-mem :
    (l : List StorageServer) (i : ℕ)
    → i < length l
    → (s : StorageServer) × (get_elem? l i ≡ some s) × Mem s l
get_elem?-mem [] i h = elim h [ ]
get_elem?-mem (s ∷ l) zero h = (s, refl, mem-cons.1 (Or.inl refl))
get_elem?-mem (s ∷ l) (suc i) h =
    let (r, e, m) = get_elem?-mem l i (omega arith) in (r, e, mem-cons.1 (Or.inr m))

pub pick_lem :
    (h : ℕ) (l : List StorageServer)
    → ((s : StorageServer) × (get_elem? l (h % length l) ≡ some s)
        × (pick h l ≡ done (ok s))
        × Mem s l)
      ⊎ ((l ≡ []) × (pick h l ≡ done (err no_available_storage)))
unfolding pick at_index
pick_lem h [] = inr (refl, refl)
pick_lem h (s ∷ l) =
    let (r, e, m) = get_elem?-mem (s ∷ l) (h % suc (length l)) (omega arith) in
    inl (r, e, ground (arith, e), m)

-- Where a group is well-formed, the choice is an active server that is registered in it, and it
-- fails only where none is active. It depends on the group and the address alone: not on the order
-- in which Go visits the map.
pub select_storage_ip_hash_lem :
    (v w : Visit StorageServer) (hash : Text → ℕ) (ip : Text) (g : Group)
    → IsWell g
    → (((s : StorageServer) × (select_storage_ip_hash v hash ip g ≡ done (ok s))
          × (get_storage s.addr g ≡ some s)
          × (s.status ≡ storage_active))
        ⊎ ((select_storage_ip_hash v hash ip g ≡ done (err no_available_storage))
            × ((s : StorageServer) → get_storage s.addr g ≡ some s → s.status ≢ storage_active)))
      × (select_storage_ip_hash v hash ip g ≡ select_storage_ip_hash w hash ip g)
unfolding select_storage_ip_hash
select_storage_ip_hash_lem v w hash ip g well =
    let (no_nil, listed) = get_storages_complete v g well in
    let (found, run, a) = active_storages_lem (get_storages v g) no_nil in
    let run' : (active_storages (get_storages v g) >>= pick (hash ip)) ≡ pick (hash ip) found =
      ap (λ o. o >>= pick (hash ip)) run in
    (
      elim (pick_lem (hash ip) found) [
        | inl (s, at, e, m) ↦ inl (s, run' ∙ e, (listed s).0 (a.sound s m).0, (a.sound s m).1)
        | inr (empty, e) ↦ inr (
          run' ∙ e,
          λ s at up. not-mem-nil (subst (Mem s) empty (a.complete s ((listed s).1 at) up)),
        )
      ],
      ap (λ l. active_storages l >>= pick (hash ip)) (get_storages_any_order v w g),
    )
