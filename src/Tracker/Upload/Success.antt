-- ===== src/Tracker/Upload/Success.antt =====
-- An upload that a storage accepts, from the choice of the group to the copies.
use eggdfs.Base.{ℕ, ◌≡◌, ◌≢◌, ◌⊎◌, ◌++◌, false, Option, none, some, inl, inr, List, [], ◌∷◌, done}
use eggdfs.Base.Text.{Text, has_byte}
use eggdfs.Base.Visit.{Visit}
use eggdfs.Common.Const.{group_active, storage_active}
use eggdfs.Group.{StorageServer, Group, get_storage}
use eggdfs.Tracker.{Tracker, IsSound, get_group}
use eggdfs.Tracker.Proxy.{Headers, answered, relayed, address_url, new_tracker_proxy, http_proxy}
use eggdfs.Tracker.Query.Laws.{group-IsWell}
use eggdfs.Tracker.Select.{no_available_group, no_available_storage}
use eggdfs.Tracker.Select.ByAddress.{select_storage_ip_hash_lem}
use eggdfs.Tracker.Select.ForUpload.{select_group_for_upload_lem}
use eggdfs.Tracker.Upload.{
  SyncTask, failed, sent, sync_info, replicate_upload, success_text, upload_to, quick_upload,
}
use eggdfs.Tracker.Upload.Replicas.{CopiesTo, replicate_upload_lem}

module _ {S : Type 0} (vg : Visit Group) (v : Visit StorageServer) (hash : Text → ℕ)
    (parse : Text → Option Text) (schema ip uuid : Text) (h : Headers) (t : Tracker S)
    (sound : IsSound t) where
  upload_to_run :
      (s : StorageServer) (n : Text) (tasks : List SyncTask)
      → replicate_upload v s n uuid (relayed h) t ≡ done tasks
      → parse (address_url schema s.addr) ≡ none
      → upload_to v parse schema uuid s n (answered h) t ≡ done (sent (relayed h), tasks, t)
  unfolding upload_to http_proxy new_tracker_proxy
  upload_to_run s n tasks run fine = rw (upload_to, http_proxy, fine, run)

  -- In a sound tracker, where the URLs of the registered storages parse and the storage that is asked answers
  -- that it saved a file under `dir/name`, with no slash in `name`, an upload is refused only if no
  -- group is active or the chosen group has no active storage. Else the answer goes back to the
  -- client from an active storage of an active group, one copy starts to each other storage of
  -- that group and to no other, and the tracker is as before.
  pub quick_upload_copies :
      (dir name : Text)
      → ((n : Text) (g : Group) (s : StorageServer)
          → get_group n t ≡ some g
          → get_storage s.addr g ≡ some s
          → parse (address_url schema s.addr) ≡ none)
      → h.upload_res ≡ success_text
      → h.file_path ≡ dir ++ (b'/' ∷ name)
      → has_byte b'/' name ≡ false
      → ((g : Group) × (s : StorageServer) × (tasks : List SyncTask) × (quick_upload vg v hash parse
              schema ip uuid
              (answered h)
              t
            ≡ done (sent (relayed h), tasks, t))
          × (get_group g.name t ≡ some g)
          × (g.status ≡ group_active)
          × (get_storage s.addr g ≡ some s)
          × (s.status ≡ storage_active)
          × CopiesTo g s (λ server. sync_info s server g.name uuid dir name h.file_hash) tasks)
        ⊎ (((n : Text) (g : Group) → get_group n t ≡ some g → g.status ≢ group_active)
            × (quick_upload vg v hash parse schema ip uuid (answered h) t
                ≡ done (failed no_available_group, [], t)))
        ⊎ ((g : Group) × (get_group g.name t ≡ some g)
            × ((s : StorageServer) → get_storage s.addr g ≡ some s → s.status ≢ storage_active)
            × (quick_upload vg v hash parse schema ip uuid (answered h) t
                ≡ done (failed no_available_storage, [], t)))
  unfolding quick_upload
  quick_upload_copies dir name valid res path clean =
      elim (select_group_for_upload_lem vg t sound) [
        | inr (none_up, all_down) ↦ inr (inl (all_down, rw (quick_upload, none_up)))
        | inl (g, chosen, at, up) ↦
            elim (select_storage_ip_hash_lem v v hash ip g (group-IsWell t sound g.name g at)).0 [
              | inr (no_server, all_down) ↦
                  inr (inr (g, at, all_down, rw (quick_upload, chosen, no_server)))
              | inl (s, run, reg, live) ↦
                  let (tasks, copied, to) =
                    replicate_upload_lem v t sound g s g.name uuid h dir name at res path clean in
                  inl (
                    g,
                    s,
                    tasks,
                    rw (quick_upload, chosen, run)
                        (upload_to_run s g.name tasks copied (valid g.name g s at reg)),
                    at,
                    up,
                    reg,
                    live,
                    to,
                  )
            ]
      ]
