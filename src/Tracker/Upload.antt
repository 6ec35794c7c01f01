-- ===== src/Tracker/Upload.antt =====
-- `QuickUpload` of svc/tracker.go.
pub mod Replicas
pub mod Total
pub mod Success
use eggdfs.Base.{
  ℕ, Bool, Option, none, some, List, [], ◌∷◌, Outcome, done, panic, ◌>>=◌, Result, ok, err,
  if◌then◌else◌,
}
use eggdfs.Base.Text.{Text, bytes, text_eq}
use eggdfs.Base.Visit.{Visit}
use eggdfs.Common.Const.{sync_add}
use eggdfs.Common.Model.{SyncFileInfo}
use eggdfs.Group.{StorageServer, Group, get_storages}
use eggdfs.Tracker.{Tracker, get_group}
use eggdfs.Tracker.Select.{select_group_for_upload, select_storage_ip_hash}
use eggdfs.Tracker.Proxy.{
  Headers, Proxied, Relayed, relayed, bad_gateway, address_url, new_tracker_proxy, http_proxy,
}
use eggdfs.Util.{parse_header_file_path}

-- `strconv.Itoa(common.Success)`
unfoldable pub success_text : Text
success_text = bytes "20000"

-- One goroutine `t.SyncFile(server, info)`.
abbrev pub SyncTask : Type 0
SyncTask = StorageServer × SyncFileInfo

-- The reply to the client, and the goroutines that were started.
pub data Reply : Type 0 where
  failed : Text → Reply
  sent : Relayed → Reply

unfoldable pub sync_info :
    StorageServer → StorageServer → Text → Text → Text → Text → Text → SyncFileInfo
sync_info s server group uuid dir name hash = record {
  src = address_url s.http_schema s.addr;
  dst = address_url server.http_schema server.addr;
  file_id = uuid;
  file_path = dir;
  file_name = name;
  file_hash = hash;
  action = sync_add;
  group = group;
}

-- The loop over `storages`; a nil pointer panics at `server.Addr`.
unfoldable pub sync_tasks :
    (StorageServer → SyncFileInfo)
    → StorageServer
    → List (Option StorageServer)
    → Outcome (List SyncTask)
sync_tasks info s [] = done []
sync_tasks info s (none ∷ l) = panic
sync_tasks info s (some server ∷ l) = do
  rest ← sync_tasks info s l
  done (if text_eq server.addr s.addr then rest else (server, info server) ∷ rest)

module _ {S : Type 0} where
  -- The part behind the reverse proxy. `t.groups[group.Name]` is nil for a missing group.
  unfoldable pub replicate_upload :
      Visit StorageServer
      → StorageServer
      → Text
      → Text
      → Relayed
      → Tracker S
      → Outcome (List SyncTask)
  unfolding sync_tasks sync_info
  replicate_upload v s group uuid (bad_gateway e) t = done []
  replicate_upload v s group uuid (relayed h) t =
      if text_eq h.upload_res success_text
      then (do
        (dir, name) ← parse_header_file_path h.file_path
        elim (get_group group t) [
          | none ↦ panic
          | some g ↦
              sync_tasks (λ server. sync_info s server group uuid dir name h.file_hash) s
                (get_storages v g)
        ])
      else done []

  unfoldable pub upload_to :
      Visit StorageServer
      → (Text → Option Text)
      → Text
      → Text
      → StorageServer
      → Text
      → Proxied
      → Tracker S
      → Outcome (Reply × List SyncTask × Tracker S)
  unfolding replicate_upload http_proxy new_tracker_proxy
  upload_to v parse schema uuid s group p t = do
    (r, t') ← http_proxy parse (new_tracker_proxy schema s.addr group) p t
    elim r [
      | err e ↦ done (failed e, [], t')
      | ok sent_back ↦ do
        tasks ← replicate_upload v s group uuid sent_back t'
        done (sent sent_back, tasks, t')
    ]

  -- `schema` is `config().HttpSchema` and `uuid` the identifier that `util.GenFileUUID` gave.
  unfoldable pub quick_upload :
      Visit Group
      → Visit StorageServer
      → (Text → ℕ)
      → (Text → Option Text)
      → Text
      → Text
      → Text
      → Proxied
      → Tracker S
      → Outcome (Reply × List SyncTask × Tracker S)
  unfolding upload_to
  quick_upload vg v hash parse schema ip uuid p t = elim (select_group_for_upload vg t) [
    | err e ↦ done (failed e, [], t)
    | ok g ↦ do
      r ← select_storage_ip_hash v hash ip g
      elim r [ err e ↦ done (failed e, [], t) | ok s ↦ upload_to v parse schema uuid s g.name p t ]
  ]
