-- ===== src/Tracker/Repair.antt =====
-- `RepairSyncFail`, the job that `startTrackerTimerTask` of svc/tracker.go runs every 30 minutes.
pub mod Crash
use eggdfs.Base.{
  ℕ, Bool, true, false, Option, none, some, List, [], ◌∷◌, ◌++◌, Outcome, done, panic, ◌>>=◌,
  Result, ok, err, ◌==◌, if◌then◌else◌,
}
use eggdfs.Base.Text.{Text, bytes}
use eggdfs.Common.Const.{success, storage_active}
use eggdfs.Common.Model.{SyncFileInfo}
use eggdfs.Common.Json.{Json}
use eggdfs.Db.{LevelDb}
use eggdfs.Db
use eggdfs.Group.{StorageServer, get_storage}
use eggdfs.Tracker.{Tracker, get_group}
use eggdfs.Tracker.Sync.{sync_key}

-- `g.GetStorage(…).Status == 1`, of a pointer that may be nil.
unfoldable pub is_up : Option StorageServer → Outcome Bool
is_up none = panic
is_up (some s) = done (s.status == storage_active)

-- The answer counts: no error, a body, and the status `Success` in it. The error of the decoding
-- is dropped.
unfoldable pub repair_accepted : Json → Result Text Text → Bool
repair_accepted J (err e) = false
repair_accepted J (ok []) = false
repair_accepted J (ok (c ∷ resp)) = (J.unmarshal_resp (c ∷ resp)).1 == success

unfoldable pub sync_path : Text
sync_path = bytes "/sync"

module _ (D : LevelDb) (J : Json) (post : Text → SyncFileInfo → Result Text Text) where
  -- The post, and the removal of the entry after a success.
  unfoldable pub resend : SyncFileInfo → Tracker D.State → Tracker D.State
  unfolding repair_accepted
  resend info t =
      if repair_accepted J (post (info.dst ++ sync_path) info)
      then record t {
        sync_db = (Db.delete D t.sync_db (sync_key info.file_name info.action ∷ [])).0;
      }
      else t

  -- One entry. `&&` asks for the source only if the destination is up.
  unfoldable pub repair_entry : Text → Tracker D.State → Outcome (Tracker D.State)
  unfolding is_up resend
  repair_entry v t = elim (J.unmarshal_sync v) [
    | none ↦ done t
    | some info ↦ elim (get_group info.group t) [
      | none ↦ done t
      | some g ↦ do
        dst_up ← is_up (get_storage info.dst g)
        elim dst_up [
          | false ↦ done t
          | true ↦ do
            src_up ← is_up (get_storage info.src g)
            done (if src_up then resend info t else t)
        ]
    ]
  ]

  unfoldable pub repair_loop : List (Text × Text) → Tracker D.State → Outcome (Tracker D.State)
  unfolding repair_entry
  repair_loop [] t = done t
  repair_loop ((k, v) ∷ rest) t = do t' ← repair_entry v t; repair_loop rest t'

  -- The iterator goes over a snapshot of the database.
  unfoldable pub repair_sync_fail : Tracker D.State → Outcome (Tracker D.State)
  unfolding repair_loop
  repair_sync_fail t = repair_loop (D.entries t.sync_db) t
