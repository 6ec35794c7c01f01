-- ===== src/Tracker/Sync.antt =====
-- The goroutines that bring replicas up to date (svc/tracker.go): `SyncFile` after an upload, and
-- the body of the loop of `Delete`. `answer` is what `util.HttpPost` returns.
pub mod Log
pub mod Removal
use eggdfs.Base.{
  ℕ, Bool, true, false, List, [], ◌∷◌, ◌++◌, Outcome, done, panic, ◌>>=◌, Result, ok, err, ◌==◌,
  if◌then◌else◌,
}
use eggdfs.Base.Text.{Text, bytes, text_eq}
use eggdfs.Common.Const.{success, storage_active, storage_offline, sync_delete}
use eggdfs.Common.Model.{SyncFileInfo}
use eggdfs.Common.Json.{Json}
use eggdfs.Db.{LevelDb, put_quietly}
use eggdfs.Group.{StorageServer}
use eggdfs.Tracker.{Tracker}
use eggdfs.Tracker.Proxy.{address_url}
use eggdfs.Util.{parse_header_file_path}

unfoldable pub at_sign : Text
at_sign = bytes "@"

-- `sync.FileName + "@" + sync.Action`
unfoldable pub sync_key : Text → Text → Text
sync_key name action = name ++ (at_sign ++ action)

-- The body of a request to /delete.
pub record DeleteFile : Type 0 where
  pub file_id : Text
  pub group : Text
  pub md5 : Text
  pub file : Text

-- Whether an answer to a synchronisation counts as a success for `SyncFile`.
unfoldable pub sync_accepted : Json → Result Text Text → Bool
sync_accepted J (err e) = false
sync_accepted J (ok []) = false
sync_accepted J (ok (c ∷ resp)) =
    let (failed, status) = J.unmarshal_resp (c ∷ resp) in
    if failed then false else status == success

-- `Delete` reads the status alone.
unfoldable pub delete_accepted : Json → Result Text Text → Bool
delete_accepted J (err e) = false
delete_accepted J (ok resp) = (J.unmarshal_resp resp).1 == success

module _ (D : LevelDb) (J : Json) where
  -- `_ = t.syncDB.Put(name+"@"+action, data)`
  unfoldable pub log_failure : Text → SyncFileInfo → Tracker D.State → Tracker D.State
  unfolding put_quietly
  log_failure action info t = record t {
    sync_db = put_quietly D t.sync_db (sync_key info.file_name action) (J.marshal_sync info);
  }

  unfoldable pub sync_file :
      StorageServer → SyncFileInfo → Result Text Text → Tracker D.State → Tracker D.State
  unfolding log_failure sync_accepted
  sync_file sm info answer t =
      if sm.status == storage_active
      then (if sync_accepted J answer then t else log_failure info.action info t)
      else log_failure info.action info t

  unfoldable pub delete_info : StorageServer → Text → DeleteFile → Text → Text → SyncFileInfo
  delete_info server group file dir name = record {
    src = [];
    dst = address_url server.http_schema server.addr;
    file_id = file.file_id;
    file_path = dir;
    file_name = name;
    file_hash = file.md5;
    action = sync_delete;
    group = group;
  }

  -- The goroutine for one server: a panic in it ends the process.
  unfoldable pub delete_task :
      StorageServer
      → Text
      → DeleteFile
      → Result Text Text
      → Tracker D.State
      → Outcome (Tracker D.State)
  unfolding log_failure delete_accepted delete_info
  delete_task server group file answer t = do
    (dir, name) ← parse_header_file_path file.file
    let info = delete_info server group file dir name
    done (
        if server.status == storage_offline
        then log_failure sync_delete info t
        else if delete_accepted J answer
        then t
        else log_failure sync_delete info t)
