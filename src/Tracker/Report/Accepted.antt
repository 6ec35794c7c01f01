-- ===== src/Tracker/Report/Accepted.antt =====
-- A report that passes the checks: the group is there, the server is stored, and the lock is free
-- again.
use mathlib.Core.Option
use eggdfs.Base.{
  ℕ, ◌≡◌, ◌≢◌, refl, sym, ap, ◌∙◌, subst, true, false, ◌&&◌, Option, none, some, inl, inr, [], done,
  ok, if◌then◌else◌, arith, Bool-cases, Option-cases,
}
use eggdfs.Base.Text.{Text, text_eq, text_eq_iff}
use eggdfs.Base.Dict.{
  Dict, lookup, lookup-nil, insert, NodupKeys, Each, Each-lookup, lookup-insert_self,
  insert-NodupKeys, Each-insert,
}
use eggdfs.Base.Visit.{Visit}
use eggdfs.Group.{StorageServer, Group, IsWell, get_storage, save_or_update_storage}
use eggdfs.Group.Registry.{save_or_update_storage_lem}
use eggdfs.Group.Sweep.Laws.{expire}
use eggdfs.Tracker.{Tracker, IsEntry, IsSound, get_group, is_exist_group, register_group, put_group}
use eggdfs.Tracker.Report.{
  new_group, saved, ensure_group, refresh_groups, set_tracker_status, report_locked,
}
use eggdfs.Tracker.Report.Laws.{After, Settled, refresh_groups_lem}
use eggdfs.Tracker.Report.Servers.{
  server_in, server_at, After-server, After-Settled, put_group-same, put_group-other,
}

module _ {S : Type 0} where
  -- The tracker `u` once the group of `sm` is there: the other groups are as in `t`, and so are the
  -- servers at other addresses.
  pub record Ensured (sm : StorageServer) (t u : Tracker S) : Type 0 where
    pub here : (g : Group) × (lookup sm.group u.groups ≡ some g)
    pub distinct : NodupKeys u.groups
    pub entries : Each IsEntry u.groups
    pub same :
        (n k : Text)
        → (text_eq sm.group n && text_eq sm.addr k) ≡ false
        → server_at n k u ≡ server_at n k t
    pub db : u.sync_db ≡ t.sync_db

  module _ (sm : StorageServer) (t : Tracker S) (distinct : NodupKeys t.groups)
      (entries : Each IsEntry t.groups) (addressed : sm.addr ≢ []) (grouped : sm.group ≢ []) where
    new_group-IsWell : IsWell (new_group sm)
    unfolding new_group
    new_group-IsWell = record { distinct = tt; slots = tt; released = refl }

    new-name : sm.group ≡ (new_group sm).name
    unfolding new_group
    new-name = refl

    no-storages : (k : Text) → get_storage k (new_group sm) ≡ none
    unfolding new_group get_storage
    no-storages k = lookup-nil k

    register_new :
        (g : Group)
        → g.name ≡ sm.group
        → lookup sm.group t.groups ≡ none
        → register_group g t ≡ ok (put_group g t)
    unfolding register_group
    register_new g e absent =
        let absent' : lookup g.name t.groups ≡ none = ap (λ n. lookup n t.groups) e ∙ absent in
        let full : g.name ≢ [] = λ q. grouped (sym e ∙ q) in
        ground (arith, absent', text_eq_iff g.name [])

    exists_old : (g : Group) → lookup sm.group t.groups ≡ some g → is_exist_group sm.group t ≡ true
    unfolding is_exist_group
    exists_old g e = ground arith

    exists_new : lookup sm.group t.groups ≡ none → is_exist_group sm.group t ≡ false
    unfolding is_exist_group
    exists_new e = ground arith

    addr_off :
        (n k : Text)
        → (text_eq sm.group n && text_eq sm.addr k) ≡ false
        → text_eq sm.group n ≡ true
        → {o : Option StorageServer} → o ≡ none
        → (if text_eq sm.addr k then some sm else o) ≡ none
    addr_off n k off same h = ground arith

    same_new :
        (g : Group)
        → g.name ≡ sm.group
        → ((k : Text)
            → get_storage k g
              ≡ (if text_eq sm.addr k then some sm else get_storage k (new_group sm)))
        → lookup sm.group t.groups ≡ none
        → (n k : Text) → (text_eq sm.group n && text_eq sm.addr k) ≡ false
        → server_at n k (put_group g t) ≡ server_at n k t
    same_new g e find absent n k off = elim (Bool-cases (text_eq sm.group n)) [
      | inl same ↦
          ap (server_in k) (put_group-same sm.group t g e n same)
          ∙ find k
          ∙ addr_off n k off same (no-storages k)
          ∙ sym (
              ap (server_in k)
                (ap (λ j. lookup j t.groups) (sym ((text_eq_iff _ _).0 same)) ∙ absent))
      | inr differ ↦ ap (server_in k) (put_group-other sm.group t g e n differ)
    ]

    ensure_run :
        (g : Group)
        → save_or_update_storage sm (new_group sm) ≡ done (ok g)
        → g.name ≡ sm.group
        → lookup sm.group t.groups ≡ none
        → ensure_group sm t ≡ done (put_group g t)
    unfolding ensure_group saved
    ensure_run g run e absent = ground (arith, exists_new absent, run, register_new g e absent)

    ensure_new :
        lookup sm.group t.groups ≡ none
        → (u : Tracker S) × (ensure_group sm t ≡ done u) × Ensured sm t u
    ensure_new absent =
        let (g, run, well, find, shape) =
          save_or_update_storage_lem sm (new_group sm) new_group-IsWell addressed new-name in
        let named : g.name ≡ (new_group sm).name = ap (λ (h : Group). h.name) shape in
        (
          put_group g t,
          ensure_run g run (named ∙ sym new-name) absent,
          record {
            here = (
              g,
              ap (λ n. lookup n (insert g.name g t.groups)) (new-name ∙ sym named)
                  ∙ lookup-insert_self g.name g t.groups,
            );
            distinct = insert-NodupKeys g.name g t.groups distinct;
            entries =
                Each-insert IsEntry g.name g t.groups entries
                  (refl, λ q. grouped (new-name ∙ sym named ∙ q), well);
            same = λ n k off. same_new g (named ∙ sym new-name) find absent n k off;
            db = refl;
          },
        )

    pub ensure_group_lem : (u : Tracker S) × (ensure_group sm t ≡ done u) × Ensured sm t u
    unfolding ensure_group
    ensure_group_lem = elim (Option-cases (lookup sm.group t.groups)) [
      | inl absent ↦ ensure_new absent
      | inr (g, e) ↦ (
        t,
        rw (exists_old g e),
        record {
          here = (g, e);
          distinct = distinct;
          entries = entries;
          same = λ n k off. refl;
          db = refl;
        },
      )
    ]

    -- The second half, under the lock.
    module _ (v : Visit StorageServer) (later : ℕ) (u : Tracker S) (en : Ensured sm t u) where
      abbrev pub stored : Text → Text → Option StorageServer → Option StorageServer
      stored n k o = if text_eq sm.group n && text_eq sm.addr k then some sm else o

      stored_servers :
          (g g' : Group)
          → lookup sm.group u.groups ≡ some g
          → g'.name ≡ sm.group
          → ((k : Text)
              → get_storage k g' ≡ (if text_eq sm.addr k then some sm else get_storage k g))
          → (n k : Text)
          → server_in k (lookup n (insert g'.name g' u.groups)) ≡ stored n k (server_at n k t)
      stored_servers g g' at e find n k = elim (Bool-cases (text_eq sm.group n)) [
        | inr differ ↦
            ap (server_in k) (put_group-other sm.group u g' e n differ)
            ∙ en.same n k (ground (arith, differ))
            ∙ rw differ
        | inl same ↦
            let here : lookup n u.groups ≡ some g =
              subst (λ z. lookup z u.groups ≡ some g) ((text_eq_iff _ _).0 same) at in
            ap (server_in k) (put_group-same sm.group u g' e n same)
            ∙ find k
            ∙ elim (Bool-cases (text_eq sm.addr k)) [
              | inl hit ↦ rw (hit, same)
              | inr miss ↦
                  rw (miss, same)
                    (sym (ap (server_in k) here) ∙ en.same n k (ground (arith, miss, same)))
            ]
      ]

      report_run :
          (g g' : Group) (m : Dict Group)
          → lookup sm.group u.groups ≡ some g
          → save_or_update_storage sm g ≡ done (ok g')
          → refresh_groups v later (insert g'.name g' u.groups) ≡ done m
          → report_locked v later sm u ≡ done (record u { groups = m; locked = false })
      unfolding report_locked set_tracker_status get_group
      report_run g g' m at run runs = rw (at, report_locked, run, runs)

      pub report_locked_lem :
          (w : Tracker S) × (report_locked v later sm u ≡ done w)
          × IsSound w
          × ((n k : Text)
              → server_at n k w ≡ Option.map (expire later) (stored n k (server_at n k t)))
          × ((n : Text) (h : Group) → lookup n w.groups ≡ some h → Settled later h)
          × (w.sync_db ≡ t.sync_db)
      report_locked_lem =
          let (g, at) = en.here in
          let (named, full, well) = Each-lookup IsEntry sm.group u.groups g en.entries at in
          let (g', run, well', find, shape) =
            save_or_update_storage_lem sm g well addressed (sym named) in
          let e : g'.name ≡ sm.group = ap (λ (h : Group). h.name) shape ∙ named in
          let (m, runs, p) = refresh_groups_lem v later (insert g'.name g' u.groups) (
            Each-insert IsEntry g'.name g' u.groups en.entries
              (refl, (λ q. grouped (sym e ∙ q)), well')) in
          (
            record u { groups = m; locked = false },
            report_run g g' m at run runs,
            record {
              distinct = p.distinct (insert-NodupKeys g'.name g' u.groups en.distinct);
              entries = p.entries;
              unlocked = refl;
            },
            (λ n k.
                After-server later k _ _ (p.slots n)
                ∙ ap (Option.map (expire later)) (stored_servers g g' at e find n k)),
            (λ n h q. After-Settled later _ h (subst (After later _) q (p.slots n))),
            en.db,
          )
