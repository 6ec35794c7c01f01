-- ===== src/Tracker/Report/Laws.antt =====
-- What a report does to the groups: the map of servers is written at one place, then every group
-- is brought up to date; the lock is released.
use mathlib.Core.Option.{none-ne-some, some-injective}
use eggdfs.Base.{
  ℕ, ◌≡◌, ◌⊎◌, refl, sym, ap₂, ◌∙◌, subst, ◌>>=◌, Bool, true, false, Option, none, some, inl, inr,
  [], ◌∷◌, done, if◌then◌else◌, Option-cases,
}
use eggdfs.Base.Text.{Text, text_eq}
use eggdfs.Base.Dict.{Dict, lookup, NodupKeys, Each}
use eggdfs.Base.Visit.{Visit}
use eggdfs.Common.Const.{group_active, group_unavailable}
use eggdfs.Group.{StorageServer, Group, get_storage}
use eggdfs.Group.Capacity.{IsLeast, frees}
use eggdfs.Group.Sweep.Laws.{expire, is_live, is_live-expire}
use eggdfs.Group.Sweep.Status.{Refreshed, SomeLive, NoneLive, refresh_group_lem}
use eggdfs.Tracker.{IsEntry}
use eggdfs.Tracker.Report.{refresh_groups}

-- The status and the capacity that fit the servers of a group.
abbrev pub Settled : ℕ → Group → Type 0
Settled now h =
    (SomeLive now h × (h.status ≡ group_active) × IsLeast h.cap (frees h))
    ⊎ (NoneLive now h × (h.status ≡ group_unavailable) × (h.cap ≡ 0))

pub Refreshed-Settled : (now : ℕ) (g h : Group) → Refreshed now g h → Settled now h
Refreshed-Settled now g h r = elim r.outcome [
  | inl ((k, s, e, live), up, least) ↦
      inl ((k, expire now s, r.servers k ∙ rw e, is_live-expire now s ∙ live), up, least)
  | inr (dead, down, zeroed) ↦ inr (
    (λ k s' e'. elim (Option-cases (get_storage k g)) [
      | inl e ↦ absurd (none-ne-some s' (sym (rw e at (r.servers k)) ∙ e'))
      | inr (s, e) ↦
          subst (λ z. is_live now z ≡ false) (some-injective _ _ (sym (rw e at (r.servers k)) ∙ e'))
            (is_live-expire now s ∙ dead k s e)
    ]),
    down,
    zeroed,
  )
]

-- One slot of the map of groups before and after a pass.
abbrev pub After : ℕ → Option Group → Option Group → Type 0
After now none none = Unit
After now (some g) (some h) = Refreshed now g h
After now _ _ = ⊥

pub record Passed (now : ℕ) (m m' : Dict Group) : Type 0 where
  pub entries : Each IsEntry m'
  pub distinct : NodupKeys m → NodupKeys m'
  pub slots : (n : Text) → After now (lookup n m) (lookup n m')

After-none : (now : ℕ) (o : Option Group) → After now none o → o ≡ none
After-none now none h = refl
After-none now (some g) h = absurd h

After-cons :
    (now : ℕ) (b : Bool) (g h : Group) (o o' : Option Group)
    → Refreshed now g h
    → After now o o'
    → After now (if b then some g else o) (if b then some h else o')
After-cons now true g h o o' r s = r
After-cons now false g h o o' r s = s

module _ (v : Visit StorageServer) (now : ℕ) where
  pub refresh_groups_lem :
      (m : Dict Group)
      → Each IsEntry m
      → (m' : Dict Group) × (refresh_groups v now m ≡ done m') × Passed now m m'
  unfolding refresh_groups lookup
  refresh_groups_lem [] h = ([], refl, record { entries = tt; distinct = λ u. u; slots = λ n. tt })
  refresh_groups_lem ((n, g) ∷ m) ((named, full, well), h) =
      let (g', run, r) = refresh_group_lem v now g well in
      let (m', runs, p) = refresh_groups_lem m h in
      (
        (n, g') ∷ m',
        ap₂ (λ a b. a >>= λ h. b >>= λ l. done ((n, h) ∷ l)) run runs,
        record {
          entries = ((r.named ∙ named, full, r.well), p.entries);
          distinct = λ u. (
            After-none now _ (subst (λ o. After now o (lookup n m')) u.0 (p.slots n)),
            p.distinct u.1,
          );
          slots = λ k. After-cons now (text_eq n k) g g' _ _ r (p.slots k);
        },
      )
