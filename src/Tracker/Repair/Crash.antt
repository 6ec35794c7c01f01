-- ===== src/Tracker/Repair/Crash.antt =====
-- The repair job looks its servers up under URLs, and they are registered under addresses.
use eggdfs.Base.{
  ℕ, ◌⊎◌, ◌>>=◌, ◌≡◌, refl, sym, ap, ◌∙◌, Bool, true, false, none, some, inl, inr, List, [], ◌∷◌,
  ◌++◌, done, panic, Result, arith, Option-cases, Bool-cases, ◌==◌, if◌then◌else◌, panic-ne-done,
  done-injective,
}
use eggdfs.Base.Text.{Text, has_byte, bytes}
use eggdfs.Base.Dict.{Each, Each-lookup, lookup}
use eggdfs.Common.Const.{storage_active}
use eggdfs.Common.Json.{Json}
use eggdfs.Common.Model.{SyncFileInfo}
use eggdfs.Db.{LevelDb}
use eggdfs.Group.{Group, get_storage}
use eggdfs.Tracker.{Tracker, SameGroups, get_group}
use eggdfs.Tracker.Proxy.{address_url, separator}
use eggdfs.Tracker.Repair.{is_up, resend, repair_entry, repair_loop, repair_sync_fail}

has_byte-append : (c : ℕ) (s t : Text) → has_byte c t ≡ true → has_byte c (s ++ t) ≡ true
unfolding has_byte
has_byte-append c [] t h = h
has_byte-append c (a ∷ s) t h = ground (arith, has_byte-append c s t h)

separator-slash : (a : Text) → has_byte b'/' (separator ++ a) ≡ true
unfolding separator has_byte bytes
separator-slash a = refl

true-ne-false : ◌≡◌ {A = Bool} true false → ⊥
true-ne-false e = cc

-- Every URL has a slash.
address_url-slash : (schema addr : Text) → has_byte b'/' (address_url schema addr) ≡ true
unfolding address_url
address_url-slash schema addr = has_byte-append b'/' schema _ (separator-slash addr)

-- No address of the group has a slash, as in every real host and port.
abbrev pub NoSlash : Group → Type 0
NoSlash g = Each (λ k s. has_byte b'/' k ≡ false) g.storages

not_registered :
    (g : Group) (schema addr : Text) → NoSlash g → get_storage (address_url schema addr) g ≡ none
unfolding get_storage
not_registered g schema addr plain =
    elim (Option-cases (lookup (address_url schema addr) g.storages)) [
      | inl e ↦ e
      | inr (s, e) ↦ absurd (
          true-ne-false (
            sym (address_url-slash schema addr)
            ∙ Each-lookup (λ k s. has_byte b'/' k ≡ false) _ g.storages s plain e))
    ]

module _ (D : LevelDb) (J : Json) (post : Text → SyncFileInfo → Result Text Text) where
  -- An entry whose group is registered, with the URL of a server as its destination.
  pub record IsFatal (v : Text) (t : Tracker D.State) : Type 0 where
    pub info : SyncFileInfo
    pub decoded : J.unmarshal_sync v ≡ some info
    pub group : Group
    pub at : get_group info.group t ≡ some group
    pub plain : NoSlash group
    pub schema : Text
    pub addr : Text
    pub destination : info.dst ≡ address_url schema addr

  repair_entry_panic :
      (v : Text) (t : Tracker D.State) → IsFatal v t → repair_entry D J post v t ≡ panic
  unfolding repair_entry is_up
  repair_entry_panic v t f = rw (
    repair_entry,
    f.decoded,
    f.at,
    ap (λ d. get_storage d f.group) f.destination ∙ not_registered f.group f.schema f.addr f.plain,
  )

  resend-SameGroups :
      (info : SyncFileInfo) (t : Tracker D.State) → SameGroups t (resend D J post info t)
  unfolding resend
  resend-SameGroups info t = (ground arith, ground arith)

  if-SameGroups :
      (b : Bool) (info : SyncFileInfo) (t : Tracker D.State)
      → SameGroups t (if b then resend D J post info t else t)
  if-SameGroups true info t = resend-SameGroups info t
  if-SameGroups false info t = (refl, refl)

  -- An entry ends the job, or leaves the groups alone.
  repair_entry-cases :
      (v : Text) (t : Tracker D.State)
      → (repair_entry D J post v t ≡ panic)
        ⊎ ((u : Tracker D.State) × (repair_entry D J post v t ≡ done u) × SameGroups t u)
  unfolding repair_entry is_up
  repair_entry-cases v t = elim (Option-cases (J.unmarshal_sync v)) [
    | inl e ↦ inr (t, rw (repair_entry, e), (refl, refl))
    | inr (info, e) ↦ elim (Option-cases (get_group info.group t)) [
      | inl f ↦ inr (t, rw (repair_entry, e, f), (refl, refl))
      | inr (g, f) ↦ elim (Option-cases (get_storage info.dst g)) [
        | inl d ↦ inl (rw (repair_entry, e, f, d))
        | inr (s, d) ↦ elim (Bool-cases (s.status == storage_active)) [
          | inr down ↦ inr (t, rw (repair_entry, e, f, d, is_up, down), (refl, refl))
          | inl up ↦ elim (Option-cases (get_storage info.src g)) [
            | inl x ↦ inl (rw (repair_entry, e, f, d, is_up, up, x))
            | inr (r, x) ↦ inr (
              (if r.status == storage_active then resend D J post info t else t),
              rw (repair_entry, e, f, d, is_up, up, x),
              if-SameGroups (r.status == storage_active) info t,
            )
          ]
        ]
      ]
    ]
  ]

  moved : (v : Text) (t u : Tracker D.State) → u.groups ≡ t.groups → IsFatal v t → IsFatal v u
  unfolding get_group
  moved v t u e f = record {
    info = f.info;
    decoded = f.decoded;
    group = f.group;
    at = ap (lookup f.info.group) e ∙ f.at;
    plain = f.plain;
    schema = f.schema;
    addr = f.addr;
    destination = f.destination;
  }

  repair_loop-SameGroups :
      (l : List (Text × Text)) (t u : Tracker D.State)
      → repair_loop D J post l t ≡ done u
      → SameGroups t u
  unfolding repair_loop
  repair_loop-SameGroups [] t u e =
      let q : t ≡ u = done-injective t u e in
      (
        ap (λ (z : Tracker D.State). z.groups) (sym q),
        ap (λ (z : Tracker D.State). z.locked) (sym q),
      )
  repair_loop-SameGroups ((k, v) ∷ l) t u e = elim (repair_entry-cases v t) [
    | inl q ↦ absurd (panic-ne-done u (sym (ap (λ o. o >>= repair_loop D J post l) q) ∙ e))
    | inr (w, q, (a, b)) ↦
        let (c, d) =
          repair_loop-SameGroups l w u (sym (ap (λ o. o >>= repair_loop D J post l) q) ∙ e) in
        (c ∙ a, d ∙ b)
  ]

  pub repair_sync_fail-SameGroups :
      (t u : Tracker D.State) → repair_sync_fail D J post t ≡ done u → SameGroups t u
  unfolding repair_sync_fail
  repair_sync_fail-SameGroups t u e = repair_loop-SameGroups _ t u e

  repair_loop_panic :
      (before after : List (Text × Text)) (k v : Text) (t : Tracker D.State)
      → IsFatal v t
      → repair_loop D J post (before ++ ((k, v) ∷ after)) t ≡ panic
  unfolding repair_loop
  repair_loop_panic [] after k v t f =
      ap (λ o. o >>= repair_loop D J post after) (repair_entry_panic v t f)
  repair_loop_panic ((k', v') ∷ before) after k v t f = elim (repair_entry-cases v' t) [
    | inl e ↦ ap (λ o. o >>= repair_loop D J post (before ++ ((k, v) ∷ after))) e
    | inr (u, e, same) ↦
        ap (λ o. o >>= repair_loop D J post (before ++ ((k, v) ∷ after))) e
        ∙ repair_loop_panic before after k v u (moved v t u same.0 f)
  ]

  -- If the log holds a record, wherever it stands, that decodes, whose group is registered with
  -- addresses that have no slash, and whose destination is a URL, as in every record that the
  -- tracker writes, the repair job panics: it looks the URL up among the addresses, finds a nil
  -- pointer and reads its status.
  pub repair_sync_fail_panic :
      (before after : List (Text × Text)) (k v : Text) (t : Tracker D.State)
      → D.entries t.sync_db ≡ before ++ ((k, v) ∷ after)
      → IsFatal v t
      → repair_sync_fail D J post t ≡ panic
  unfolding repair_sync_fail
  repair_sync_fail_panic before after k v t e f =
      ap (λ l. repair_loop D J post l t) e ∙ repair_loop_panic before after k v t f
