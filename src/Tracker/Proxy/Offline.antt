-- ===== src/Tracker/Proxy/Offline.antt =====
-- A storage that the proxy cannot reach goes offline, and nothing else changes.
use eggdfs.Base.{
  ◌≡◌, ◌⊎◌, panic, refl, sym, ap, ◌∙◌, subst, ◌&&◌, Option, none, some, inl, inr, done,
  if◌then◌else◌, Bool-cases, Option-cases, Result, ok, err,
}
use eggdfs.Base.Text.{Text, text_eq, text_eq_iff}
use eggdfs.Base.Dict.{lookup, insert, lookup-insert, insert-NodupKeys, Each-insert, Each-lookup}
use eggdfs.Common.Const.{storage_offline}
use eggdfs.Group.{StorageServer, Group, IsSlot, IsWell, get_storage}
use eggdfs.Tracker.{Tracker, IsSound, IsEntry, get_group, put_group}
use eggdfs.Tracker.Proxy.{
  TrackerProxy, abort_error_handler, Headers, Proxied, Relayed, answered, unreachable, aborted,
  relayed, bad_gateway, http_proxy,
}
use eggdfs.Tracker.Report.Servers.{server_at, server_in, put_group-same, put_group-other}

bad-ne-relayed :
    (e : Text) (h : Headers)
    → ◌≡◌ {A = Result Text Relayed} (ok (bad_gateway e)) (ok (relayed h))
    → ⊥
bad-ne-relayed e h q = cc

err-ne-ok : (e : Text) (r : Relayed) → ◌≡◌ {A = Result Text Relayed} (err e) (ok r) → ⊥
err-ne-ok e r q = cc

module _ {S : Type 0} (tp : TrackerProxy) (t : Tracker S) (sound : IsSound t) (g : Group)
    (s : StorageServer) (at : get_group tp.group t ≡ some g)
    (reg : get_storage tp.addr g ≡ some s) where
  abbrev off : StorageServer
  off = record s { status = storage_offline }

  abbrev marked : Group
  marked = record g { storages = insert tp.addr off g.storages }

  abort_run : abort_error_handler tp t ≡ done (put_group marked t)
  unfolding abort_error_handler
  abort_run = rw (at, abort_error_handler, reg)

  entry : IsEntry tp.group g
  unfolding get_group
  entry = Each-lookup IsEntry tp.group t.groups g sound.entries at

  marked-IsWell : IsWell marked
  unfolding get_storage
  marked-IsWell =
      let (named, full, well) = entry in
      let (a, b, c) = Each-lookup (IsSlot g.name) tp.addr g.storages s well.slots reg in
      record {
        distinct = insert-NodupKeys tp.addr off g.storages well.distinct;
        slots = Each-insert (IsSlot g.name) tp.addr off g.storages well.slots (a, b, c);
        released = well.released;
      }

  marked_servers :
      (n k : Text)
      → server_at n k (put_group marked t)
        ≡ (if text_eq tp.group n && text_eq tp.addr k then some off else server_at n k t)
  unfolding get_group get_storage
  marked_servers n k = elim (Bool-cases (text_eq tp.group n)) [
    | inr differ ↦ ap (server_in k) (put_group-other tp.group t marked entry.0 n differ) ∙ rw differ
    | inl same ↦
        let here : lookup n t.groups ≡ some g =
          subst (λ z. lookup z t.groups ≡ some g) ((text_eq_iff _ _).0 same) at in
        ap (server_in k) (put_group-same tp.group t marked entry.0 n same)
        ∙ lookup-insert tp.addr k off g.storages
        ∙ rw (same, here)
  ]

  -- After the proxy failed to reach a registered storage of a sound tracker, that storage is
  -- offline, every other storage is as it was, and the tracker is sound.
  pub abort_error_handler_lem :
      (u : Tracker S) × (abort_error_handler tp t ≡ done u)
      × IsSound u
      × ((n k : Text)
          → server_at n k u ≡ (
              if text_eq tp.group n && text_eq tp.addr k
              then some (record s { status = storage_offline })
              else server_at n k t))
      × (u.sync_db ≡ t.sync_db)
  abort_error_handler_lem = (
    put_group marked t,
    abort_run,
    record {
      distinct = insert-NodupKeys g.name marked t.groups sound.distinct;
      entries =
          Each-insert IsEntry g.name marked t.groups sound.entries
            (refl, (λ e. entry.1 (sym entry.0 ∙ e)), marked-IsWell);
      unlocked = sound.unlocked;
    },
    marked_servers,
    refl,
  )

  -- What the proxy comes back with: unless it panics because an answer breaks off.
  abbrev pub Through : (Text → Option Text) → Proxied → Type 0
  Through parse p =
      ((r : Result Text Relayed) × (u : Tracker S) × (http_proxy parse tp p t ≡ done (r, u))
        × IsSound u
        × (u.sync_db ≡ t.sync_db)
        × ((h : Headers) → r ≡ ok (relayed h) → (p ≡ answered h) × (u ≡ t)))
      ⊎ ((http_proxy parse tp p t ≡ panic) × (p ≡ aborted))

  through : (parse : Text → Option Text) (p : Proxied) → parse tp.target ≡ none → Through parse p
  unfolding http_proxy
  through parse (answered h) fine =
      inl
        (ok (relayed h), t, rw (http_proxy, fine), sound, refl, λ h' q. (ap answered (cc q), refl))
  through parse (unreachable e) fine =
      let (u, run, sound', servers, db) = abort_error_handler_lem in
      inl (
        ok (bad_gateway e),
        u,
        rw (http_proxy, fine, run),
        sound',
        db,
        λ h q. absurd (bad-ne-relayed e h q),
      )
  through parse aborted fine = inr (rw (http_proxy, fine), refl)

  -- The proxy to a registered storage of a sound tracker comes back, unless the body of an answer
  -- breaks off, and leaves the tracker sound; only an unreachable storage changes it.
  pub http_proxy_lem : (parse : Text → Option Text) (p : Proxied) → Through parse p
  unfolding http_proxy
  http_proxy_lem parse p = elim (Option-cases (parse tp.target)) [
    | inr (e, bad) ↦
        inl (err e, t, rw (http_proxy, bad), sound, refl, λ h q. absurd (err-ne-ok e (relayed h) q))
    | inl fine ↦ through parse p fine
  ]
