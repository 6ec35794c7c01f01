-- ===== src/Group/Sweep/Status.antt =====
-- The status and the capacity that one pass of `SetTrackerStatus` gives a group.
use mathlib.Core.Option
use mathlib.Core.Option.{some-ne-none, none-ne-some}
use mathlib.Core.List.{Mem, mem-cons, not-mem-nil}
use mathlib.Core.Logic.Or
use eggdfs.Base.{
  ℕ, ◌≡◌, ◌≢◌, ◌⊎◌, refl, sym, ap, ◌∙◌, subst, ◌>>=◌, true, false, none, some, inl, inr, List, [],
  ◌∷◌, done, arith, Bool-cases, Option-cases,
}
use mathlib.Core.Bool.{Bool-set}
use eggdfs.Base.Text.{Text, text_eq, text_eq_iff}
use eggdfs.Base.Dict.{Dict, lookup, lookup-nil}
use eggdfs.Base.Visit.{Visit}
use eggdfs.Common.Const.{group_active, group_unavailable}
use eggdfs.Group.{StorageServer, Group, IsWell, storage_keys, get_storage}
use eggdfs.Group.Storages.{mem-storage_keys}
use eggdfs.Group.Capacity.{IsLeast, frees, get_group_cap-IsLeast}
use eggdfs.Group.Sweep.{set_group_status, refresh_group}
use eggdfs.Group.Sweep.Laws.{
  expire, is_live, live_at, contains, any_live, is_empty, Swept, sweep_lem,
}

contains→mem : (k : Text) (ks : List Text) → contains k ks ≡ true → Mem k ks
unfolding contains
contains→mem k [] c = cc
contains→mem k (j ∷ ks) c = elim (Bool-cases (text_eq j k)) [
  | inl same ↦ mem-cons.1 (Or.inl (sym ((text_eq_iff j k).0 same)))
  | inr differ ↦ mem-cons.1 (Or.inr (contains→mem k ks (rw differ at c)))
]

mem→contains : (k : Text) (ks : List Text) → Mem k ks → contains k ks ≡ true
unfolding contains
mem→contains k [] m = absurd (not-mem-nil m)
mem→contains k (j ∷ ks) m =
    Or.elim (Bool-set _ _) (mem-cons.0 m) (λ e. ground (arith, text_eq_iff j k))
      (λ i. ground (arith, mem→contains k ks i))

-- Some server of the group is live, or none is.
abbrev pub SomeLive : ℕ → Group → Type 0
SomeLive now g =
    (k : Text) × (s : StorageServer) × (get_storage k g ≡ some s) × (is_live now s ≡ true)

abbrev pub NoneLive : ℕ → Group → Type 0
NoneLive now g = (k : Text) (s : StorageServer) → get_storage k g ≡ some s → is_live now s ≡ false

any_live→some :
    (now : ℕ) (g : Group) (ks : List Text) → any_live now g.storages ks ≡ true → SomeLive now g
unfolding any_live live_at get_storage
any_live→some now g [] h = absurd (ground arith)
any_live→some now g (k ∷ ks) h = elim (Option-cases (lookup k g.storages)) [
  | inl e ↦ any_live→some now g ks (rw e at h)
  | inr (s, e) ↦ elim (Bool-cases (is_live now s)) [
    | inl live ↦ (k, s, e, live)
    | inr dead ↦ any_live→some now g ks (rw (e, dead) at h)
  ]
]

none_live :
    (now : ℕ) (g : Group) (ks : List Text) (k : Text) (s : StorageServer)
    → any_live now g.storages ks ≡ false
    → contains k ks ≡ true
    → lookup k g.storages ≡ some s
    → is_live now s ≡ false
unfolding any_live live_at contains
none_live now g [] k s h c e = absurd (ground arith)
none_live now g (j ∷ ks) k s h c e = elim (Bool-cases (text_eq j k)) [
  | inl same ↦
      let here : lookup j g.storages ≡ some s =
        subst (λ z. lookup z g.storages ≡ some s) (sym ((text_eq_iff j k).0 same)) e in
      ground (arith, here)
  | inr differ ↦ none_live now g ks k s (ground arith) (rw differ at c) e
]

-- The group `h` that one pass at the time `now` makes of the group `g`.
pub record Refreshed (now : ℕ) (g h : Group) : Type 0 where
  pub well : IsWell h
  pub named : h.name ≡ g.name
  pub servers : (k : Text) → get_storage k h ≡ Option.map (expire now) (get_storage k g)
  pub outcome :
      (SomeLive now g × (h.status ≡ group_active) × IsLeast h.cap (frees h))
      ⊎ (NoneLive now g × (h.status ≡ group_unavailable) × (h.cap ≡ 0))

module _ (v : Visit StorageServer) (now : ℕ) (g : Group) (well : IsWell g) where
  registered : (k : Text) → contains k (storage_keys v g) ≡ true → lookup k g.storages ≢ none
  registered k c = (mem-storage_keys v g well k).0 (contains→mem k _ c)

  listed : (k : Text) → lookup k g.storages ≢ none → contains k (storage_keys v g) ≡ true
  listed k n = mem→contains k _ ((mem-storage_keys v g well k).1 n)

  module _ (m : Dict StorageServer) (vs : List StorageServer)
      (w : Swept now (storage_keys v g) g.storages m [] vs) where
    swept-IsWell : (st c : ℕ) → IsWell (record g { storages = m; status = st; cap = c })
    swept-IsWell st c = record {
      distinct = w.distinct well.distinct;
      slots = w.slots g.name well.slots;
      released = well.released;
    }

    swept_servers : (k : Text) → lookup k m ≡ Option.map (expire now) (lookup k g.storages)
    swept_servers k = elim (Option-cases (lookup k g.storages)) [
      | inl e ↦ w.found k ∙ ground (arith, e)
      | inr (s, e) ↦ w.found k ∙ rw (listed k (rw e (some-ne-none s)))
    ]

  Swept-NoneLive :
      (m : Dict StorageServer) → Swept now (storage_keys v g) g.storages m [] [] → NoneLive now g
  unfolding is_empty get_storage
  Swept-NoneLive m w k s e =
      none_live now g (storage_keys v g) k s (let c = w.counted in ground arith)
        (listed k (rw e (some-ne-none s))) e

  Swept-SomeLive :
      (m : Dict StorageServer) (s : StorageServer) (vs : List StorageServer)
      → Swept now (storage_keys v g) g.storages m [] (s ∷ vs)
      → SomeLive now g
  unfolding is_empty
  Swept-SomeLive m s vs w =
      any_live→some now g (storage_keys v g) (let c = w.counted in ground arith)

  Swept-ne-nil :
      (m : Dict StorageServer) (vs : List StorageServer)
      → Swept now (storage_keys v g) g.storages m [] vs
      → SomeLive now g
      → m ≢ []
  unfolding get_storage
  Swept-ne-nil m vs w (k, s, e, live) q = absurd (
      none-ne-some (expire now s)
        (sym (lookup-nil k) ∙ ap (lookup k) (sym q) ∙ swept_servers m vs w k ∙ rw e))

  -- The branch on `vs`.
  set_group_status_lem :
      (m : Dict StorageServer) (vs : List StorageServer)
      → Swept now (storage_keys v g) g.storages m [] vs
      → (h : Group) × (set_group_status v (record g { storages = m }) vs ≡ done h)
        × Refreshed now g h
  unfolding set_group_status get_storage
  set_group_status_lem m [] w = (
    record g { storages = m; status = group_unavailable; cap = 0 },
    refl,
    record {
      well = swept-IsWell m [] w group_unavailable 0;
      named = refl;
      servers = swept_servers m [] w;
      outcome = inr (Swept-NoneLive m w, refl, refl);
    },
  )
  set_group_status_lem m (s ∷ vs) w =
      let live = Swept-SomeLive m s vs w in
      let (c, e, least) =
        get_group_cap-IsLeast v (record g { storages = m }) (Swept-ne-nil m (s ∷ vs) w live) in
      (
        record g { storages = m; status = group_active; cap = c },
        ap (λ r. r >>= λ t. done (record t.1 { status = group_active; cap = t.0 })) e,
        record {
          well = swept-IsWell m (s ∷ vs) w group_active c;
          named = refl;
          servers = swept_servers m (s ∷ vs) w;
          outcome = inl (live, refl, least);
        },
      )

  -- A pass over a well-formed group does not panic and does not block. It takes the stale active
  -- servers offline and leaves every other server. The group is active exactly when some server
  -- is live, with the least free space as its capacity, and otherwise unavailable with capacity 0.
  pub refresh_group_lem : (h : Group) × (refresh_group v now g ≡ done h) × Refreshed now g h
  unfolding refresh_group
  refresh_group_lem =
      let (m, vs, run, w) = sweep_lem now (storage_keys v g) g.storages [] registered in
      let (h, fin, r) = set_group_status_lem m vs w in
      (h, ap (λ o. o >>= λ t. set_group_status v (record g { storages = t.0 }) t.1) run ∙ fin, r)
