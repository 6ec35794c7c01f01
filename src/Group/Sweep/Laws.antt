-- ===== src/Group/Sweep/Laws.antt =====
-- What the sweep leaves: each listed server expired or as it was, and the live ones counted.
use mathlib.Core.Option
use eggdfs.Base.{
  ℕ, ◌≡◌, ◌≢◌, refl, ap, sym, ◌∙◌, subst, Bool, true, false, ◌&&◌, ◌||◌, not, Option, none, some,
  inl, inr, List, [], ◌∷◌, ◌++◌, done, ◌==◌, if◌then◌else◌, arith, Bool-cases,
}
use eggdfs.Base.Text.{Text, text_eq, text_eq_iff, text_eq_refl}
use eggdfs.Base.Dict.{
  Dict, lookup, insert, NodupKeys, Each, lookup-insert, lookup-ne-none, insert-NodupKeys,
  Each-insert, Each-lookup,
}
use eggdfs.Common.Const.{storage_active, storage_offline}
use eggdfs.Group.{StorageServer, IsSlot}
use eggdfs.Group.Sweep.{is_stale, visit_one, sweep}

-- An active server that stopped reporting is offline; any other is as it was.
abbrev pub expire : ℕ → StorageServer → StorageServer
expire now s =
    if (s.status == storage_active) && is_stale now s
    then record s { status = storage_offline }
    else s

-- Active, and reported within 50 seconds.
abbrev pub is_live : ℕ → StorageServer → Bool
is_live now s = (s.status == storage_active) && not (is_stale now s)

unfoldable pub contains : Text → List Text → Bool
contains j [] = false
contains j (k ∷ ks) = text_eq k j || contains j ks

contains_head : (k : Text) (ks : List Text) → contains k (k ∷ ks) ≡ true
unfolding contains
contains_head k ks = rw text_eq_refl

unfoldable pub live_at : ℕ → Option StorageServer → Bool
live_at now none = false
live_at now (some s) = is_live now s

unfoldable pub any_live : ℕ → Dict StorageServer → List Text → Bool
any_live now m [] = false
any_live now m (k ∷ ks) = live_at now (lookup k m) || any_live now m ks

unfoldable pub is_empty : List StorageServer → Bool
is_empty [] = true
is_empty (x ∷ xs) = false

is_empty-snoc : (vs : List StorageServer) (s : StorageServer) → is_empty (vs ++ (s ∷ [])) ≡ false
unfolding is_empty
is_empty-snoc [] s = refl
is_empty-snoc (v ∷ vs) s = refl

insert-ne-nil : (k : Text) (s : StorageServer) (m : Dict StorageServer) → insert k s m ≢ []
unfolding insert
insert-ne-nil k s [] e = cc
insert-ne-nil k s ((j, w) ∷ m) e = ground arith

module _ (now : ℕ) (k : Text) (s : StorageServer) (m : Dict StorageServer)
    (vs : List StorageServer) where
  lookup-visit_one :
      lookup k m ≡ some s
      → (j : Text)
      → lookup j (visit_one now k s m vs).0
        ≡ (if text_eq k j then some (expire now s) else lookup j m)
  unfolding visit_one
  lookup-visit_one e j =
      ground (arith, lookup-insert k j (record s { status = storage_offline }) m, text_eq_iff k j)

  is_empty-visit_one : is_empty (visit_one now k s m vs).1 ≡ (is_empty vs && not (is_live now s))
  unfolding visit_one
  is_empty-visit_one = ground (arith, is_empty-snoc vs s)

  visit_one-NodupKeys : NodupKeys m → NodupKeys (visit_one now k s m vs).0
  unfolding visit_one
  visit_one-NodupKeys u =
      ground (arith, insert-NodupKeys k (record s { status = storage_offline }) m u)

  visit_one-ne-nil : m ≢ [] → (visit_one now k s m vs).0 ≢ []
  unfolding visit_one
  visit_one-ne-nil n = ground (arith, insert-ne-nil k (record s { status = storage_offline }) m)

  visit_one-Each :
      (name : Text)
      → lookup k m ≡ some s
      → Each (IsSlot name) m
      → Each (IsSlot name) (visit_one now k s m vs).0
  unfolding visit_one
  visit_one-Each name e h =
      let (a, b, c) = Each-lookup (IsSlot name) k m s h e in
      ground
        (arith, Each-insert (IsSlot name) k (record s { status = storage_offline }) m h (a, b, c))

-- What a sweep over the keys `ks` makes of a map and of the list of live servers.
pub record Swept (now : ℕ) (ks : List Text) (m m' : Dict StorageServer)
    (vs vs' : List StorageServer) : Type 0 where
  pub found :
      (j : Text)
      → lookup j m' ≡ (if contains j ks then Option.map (expire now) (lookup j m) else lookup j m)
  pub counted : is_empty vs' ≡ (is_empty vs && not (any_live now m ks))
  pub distinct : NodupKeys m → NodupKeys m'
  pub filled : m ≢ [] → m' ≢ []
  pub slots : (name : Text) → Each (IsSlot name) m → Each (IsSlot name) m'

any_live_ext :
    (now : ℕ) (m m' : Dict StorageServer) (ks : List Text)
    → ((j : Text) → live_at now (lookup j m') ≡ live_at now (lookup j m))
    → any_live now m' ks ≡ any_live now m ks
unfolding any_live
any_live_ext now m m' [] h = refl
any_live_ext now m m' (k ∷ ks) h = ground (arith, h k, any_live_ext now m m' ks h)

pub is_live-expire : (now : ℕ) (s : StorageServer) → is_live now (expire now s) ≡ is_live now s
is_live-expire now s = ground arith

expire_idem : (now : ℕ) (s : StorageServer) → expire now (expire now s) ≡ expire now s
expire_idem now s = ground arith

if_same {ℓ} : {A : Type ℓ} {x y : A} (b : Bool) → x ≡ y → (if b then x else y) ≡ y
if_same true e = e
if_same false e = refl

counted_step :
    {a b d : Bool} (c e l : Bool)
    → a ≡ (b && not c)
    → b ≡ (e && not l)
    → d ≡ (l || c)
    → a ≡ (e && not d)
counted_step c e l p q r = ground arith

-- One round, and the rest of the sweep from the map `m₁` that it left.
module _ (now : ℕ) (k : Text) (s : StorageServer) (ks : List Text) (m m₁ : Dict StorageServer)
    (e : lookup k m ≡ some s)
    (seen : (j : Text)
      → lookup j m₁ ≡ (if text_eq k j then some (expire now s) else lookup j m)) where
  still_registered :
      ((j : Text) → contains j (k ∷ ks) ≡ true → lookup j m ≢ none)
      → (j : Text) → contains j ks ≡ true
      → lookup j m₁ ≢ none
  unfolding contains
  still_registered reg j c = elim (Bool-cases (text_eq k j)) [
    | inl same ↦ ground (arith, seen j)
    | inr differ ↦ subst (λ o. o ≢ none) (sym (seen j ∙ rw differ)) (reg j (rw differ c))
  ]

  found-cons :
      (m' : Dict StorageServer) (j : Text)
      → lookup j m' ≡ (if contains j ks then Option.map (expire now) (lookup j m₁) else lookup j m₁)
      → lookup j m'
        ≡ (if contains j (k ∷ ks) then Option.map (expire now) (lookup j m) else lookup j m)
  unfolding contains
  found-cons m' j h = elim (Bool-cases (text_eq k j)) [
    | inl same ↦
        let here : lookup j m ≡ some s =
          subst (λ z. lookup z m ≡ some s) ((text_eq_iff k j).0 same) e in
        rw (same, here)
          (h ∙ rw (seen j, same) (if_same (contains j ks) (ap some (expire_idem now s))))
    | inr differ ↦ rw differ (h ∙ rw (seen j, differ))
  ]

  any_live-cons : any_live now m (k ∷ ks) ≡ (is_live now s || any_live now m₁ ks)
  unfolding any_live live_at
  any_live-cons = rw e (ap (λ b. is_live now s || b) (sym (any_live_ext now m m₁ ks same_life)))
    where
      same_life : (j : Text) → live_at now (lookup j m₁) ≡ live_at now (lookup j m)
      same_life j = elim (Bool-cases (text_eq k j)) [
        | inl same ↦
            let here : lookup j m ≡ some s =
              subst (λ z. lookup z m ≡ some s) ((text_eq_iff k j).0 same) e in
            rw (seen j, same, here) (is_live-expire now s)
        | inr differ ↦ rw (seen j, differ)
      ]

sweep-cons :
    (now : ℕ) (k : Text) (s : StorageServer) (ks : List Text) (m : Dict StorageServer)
    (vs : List StorageServer)
    → lookup k m ≡ some s
    → sweep now (k ∷ ks) m vs ≡ sweep now ks (visit_one now k s m vs).0 (visit_one now k s m vs).1
unfolding sweep
sweep-cons now k s ks m vs e = rw (e, sweep)

-- A sweep over registered keys does not panic, and leaves what `Swept` says.
pub sweep_lem :
    (now : ℕ) (ks : List Text) (m : Dict StorageServer) (vs : List StorageServer)
    → ((k : Text) → contains k ks ≡ true → lookup k m ≢ none)
    → (m' : Dict StorageServer) × (vs' : List StorageServer) × (sweep now ks m vs ≡ done (m', vs'))
      × Swept now ks m m' vs vs'
unfolding sweep contains any_live
sweep_lem now [] m vs reg = (
  m,
  vs,
  refl,
  record {
    found = λ j. refl;
    counted = ground arith;
    distinct = λ u. u;
    filled = λ n. n;
    slots = λ name h. h;
  },
)
sweep_lem now (k ∷ ks) m vs reg =
    let (s, e) = lookup-ne-none k m (reg k (contains_head k ks)) in
    let o = visit_one now k s m vs in
    let seen = lookup-visit_one now k s m vs e in
    let (m', vs', run, w) =
      sweep_lem now ks o.0 o.1 (still_registered now k s ks m o.0 e seen reg) in
    (
      m',
      vs',
      sweep-cons now k s ks m vs e ∙ run,
      record {
        found = λ j. found-cons now k s ks m o.0 e seen m' j (w.found j);
        counted =
            counted_step (any_live now o.0 ks) (is_empty vs) (is_live now s) (w.counted)
              (is_empty-visit_one now k s m vs) (any_live-cons now k s ks m o.0 e seen);
        distinct = λ u. w.distinct (visit_one-NodupKeys now k s m vs u);
        filled = λ n. w.filled (visit_one-ne-nil now k s m vs n);
        slots = λ name h. w.slots name (visit_one-Each now k s m vs name e h);
      },
    )
