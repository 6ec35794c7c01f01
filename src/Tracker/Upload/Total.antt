-- ===== src/Tracker/Upload/Total.antt =====
-- When an upload comes back, and what it leaves.
use eggdfs.Base.{
  Result-cases, ℕ, ◌≡◌, ◌⊎◌, inl, inr, refl, sym, subst, Option, some, List, [], false, done, panic,
  Outcome, ok, Bool-cases,
}
use eggdfs.Base.Text.{Text, text_eq, text_eq_iff, has_byte}
use eggdfs.Base.Visit.{Visit}
use eggdfs.Group.{StorageServer, Group, get_storage, get_storages}
use eggdfs.Group.Storages.{get_storages_complete}
use eggdfs.Tracker.{Tracker, IsSound, get_group}
use eggdfs.Tracker.Proxy.{
  Headers, Proxied, answered, unreachable, aborted, relayed, bad_gateway, new_tracker_proxy,
}
use eggdfs.Tracker.Proxy.Offline.{http_proxy_lem}
use eggdfs.Tracker.Query.Laws.{group-IsWell}
use eggdfs.Tracker.Select.{
  select_group_for_upload, select_storage_ip_hash, no_available_group, no_available_storage,
}
use eggdfs.Tracker.Select.ByAddress.{select_storage_ip_hash_lem}
use eggdfs.Tracker.Select.ForUpload.{select_group_for_upload_lem}
use eggdfs.Tracker.Upload.{
  SyncTask, Reply, failed, sent, sync_info, replicate_upload, success_text, upload_to, quick_upload,
}
use eggdfs.Tracker.Upload.Replicas.{sync_tasks_lem}
use eggdfs.Util.Paths.{parse_header_file_path-panic, parse_header_file_path-cases}

-- The storage says that it saved a file, and names a path without a slash; or its answer breaks off.
abbrev pub Breaks : Proxied → Type 0
Breaks (unreachable e) = ⊥
Breaks aborted = Unit {0}
Breaks (answered h) = (h.upload_res ≡ success_text) × (has_byte b'/' h.file_path ≡ false)

module _ {S : Type 0} (v : Visit StorageServer) (p : Proxied) (t : Tracker S)
    (sound : IsSound t) where
  -- A reply was sent and the tracker is sound, or the handler panicked, and it had a reason.
  abbrev pub Replies : Outcome (Reply × List SyncTask × Tracker S) → Type 0
  Replies o =
      ((r : Reply) × (tasks : List SyncTask) × (u : Tracker S) × (o ≡ done (r, tasks, u))
        × IsSound u
        × (u.sync_db ≡ t.sync_db))
      ⊎ ((o ≡ panic) × Breaks p)

  replicate_cases :
      (s : StorageServer) (n uuid : Text) (g : Group) (h : Headers)
      → get_group n t ≡ some g
      → ((tasks : List SyncTask) × (replicate_upload v s n uuid (relayed h) t ≡ done tasks))
        ⊎ ((replicate_upload v s n uuid (relayed h) t ≡ panic)
            × (h.upload_res ≡ success_text)
            × (has_byte b'/' h.file_path ≡ false))
  unfolding replicate_upload
  replicate_cases s n uuid g h at = elim (Bool-cases (text_eq h.upload_res success_text)) [
    | inr no_file ↦ inl ([], rw no_file)
    | inl file ↦ elim (parse_header_file_path-cases h.file_path) [
      | inr clean ↦ inr (
        rw (file, (parse_header_file_path-panic h.file_path).1 clean),
        (text_eq_iff _ _).0 file,
        clean,
      )
      | inl (dir, name, e) ↦
          let (tasks, run, r) =
            sync_tasks_lem (λ server. sync_info s server n uuid dir name h.file_hash) s
              (get_storages v g) (get_storages_complete v g (group-IsWell t sound n g at)).0 in
          inl (tasks, rw (file, e, at) run)
    ]
  ]

  module _ (parse : Text → Option Text) (schema uuid : Text) where
    upload_to-Replies :
        (n : Text) (g : Group) (s : StorageServer)
        → get_group n t ≡ some g
        → get_storage s.addr g ≡ some s
        → Replies (upload_to v parse schema uuid s n p t)
    unfolding upload_to new_tracker_proxy
    upload_to-Replies n g s at reg =
        elim (http_proxy_lem (new_tracker_proxy schema s.addr n) t sound g s at reg parse p) [
          | inr (run, broken) ↦ inr (rw run, rw broken tt)
          | inl (r, u, run, sound', db, same) ↦ elim (Result-cases r) [
            | inr (m, e) ↦ inl (failed m, [], u, rw (run, e), sound', db)
            | inl (bad_gateway m, e) ↦ inl (sent (bad_gateway m), [], u, rw (run, e), sound', db)
            | inl (relayed h, e) ↦
                let (from, kept) = same h e in
                elim (replicate_cases s n uuid g h at) [
                  | inl (tasks, q) ↦
                      inl (sent (relayed h), tasks, u, rw (run, e, kept, q), sound', db)
                  | inr (q, res, clean) ↦ inr (rw (run, e, kept, q), rw from (res, clean))
                ]
          ]
        ]

    selected :
        (vg : Visit Group) (hash : Text → ℕ) (ip : Text) (g : Group) (s : StorageServer)
        → select_group_for_upload vg t ≡ ok g
        → select_storage_ip_hash v hash ip g ≡ done (ok s)
        → quick_upload vg v hash parse schema ip uuid p t
          ≡ upload_to v parse schema uuid s g.name p t
    unfolding quick_upload
    selected vg hash ip g s chosen run = rw (quick_upload, chosen, run)

    -- An upload to a sound tracker returns a reply and leaves the tracker sound and its log as it
    -- was, for every client and storage, or the handler panics, and that in two cases only: the
    -- storage answers that it saved a file and names a path without a slash, or its answer breaks
    -- off on the way to the client and the reverse proxy panics.
    pub quick_upload_lem :
        (vg : Visit Group) (hash : Text → ℕ) (ip : Text)
        → Replies (quick_upload vg v hash parse schema ip uuid p t)
    unfolding quick_upload
    quick_upload_lem vg hash ip = elim (select_group_for_upload_lem vg t sound) [
      | inr (none_up, all_down) ↦
          inl (failed no_available_group, [], t, rw (quick_upload, none_up), sound, refl)
      | inl (g, chosen, at, up) ↦
          elim (select_storage_ip_hash_lem v v hash ip g (group-IsWell t sound g.name g at)).0 [
            | inr (no_server, all_down) ↦ inl (
              failed no_available_storage,
              [],
              t,
              rw (quick_upload, chosen, no_server),
              sound,
              refl,
            )
            | inl (s, run, reg, live) ↦
                subst Replies (sym (selected vg hash ip g s chosen run))
                  (upload_to-Replies g.name g s at reg)
          ]
    ]
