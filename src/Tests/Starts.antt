-- ===== src/Tests/Starts.antt =====
-- A process with a configured number out of range, and the posts of a storage.
use mathlib.Core.List.{Mem}
use eggdfs.Base.{ℕ, ◌<◌, ◌≡◌, Option, some, none, [], ◌∷◌, done, ltb, arith, if◌then◌else◌}
use eggdfs.Base.Int.{ℤ, pos, negsuc}
use eggdfs.Base.Text.{Text, bytes}
use eggdfs.Db.Memory.{memory}
use eggdfs.Routes.{
  get, post, route, tracker_routes, storage_routes, storage_status_report, quick_upload,
  sync_error_msg, download, download_file, sync_file, upload_file,
}
use eggdfs.Routes.Calls.{GoesTo, calls_routed}
use eggdfs.Start.{gen_tracker_node_id, gen_tracker_node_id_lem}
use eggdfs.Storage.{Storage, StorageStatus, ErrMsg, status_reports, trans_error_log_to_tracker}
use eggdfs.Tests.Storages.{conf, empty_storage}

abbrev node_of : ℤ → Option ℕ
node_of (pos n) = if ltb n 1024 then some n else none
node_of (negsuc n) = none

in_range : (n : ℕ) → n < 1024 → (d : ℕ) × (node_of (pos n) ≡ some d)
in_range n small = (n, ground arith)

gen_tracker_node_id_lem_example :
    (d : ℕ) × (node_of (pos 700) ≡ some d)
    × (gen_tracker_node_id node_of (pos 5000) 700 ≡ done d)
    × ((other : ℤ)
        → gen_tracker_node_id node_of other 700 ≡ gen_tracker_node_id node_of (pos 5000) 700)
gen_tracker_node_id_lem_example =
    gen_tracker_node_id_lem node_of in_range (pos 5000) 700 (omega arith)

abbrev two_trackers : Storage memory.State
two_trackers = record empty_storage { trackers = (b't' ∷ []) ∷ (b'u' ∷ []) ∷ [] }

calls_routed_example :
    ((url : Text) (r : StorageStatus)
      → Mem (url, r) (status_reports conf (some 9) two_trackers)
      → GoesTo storage_status_report two_trackers.trackers url)
    × ((url : Text) (m : ErrMsg)
        → Mem (url, m) (trans_error_log_to_tracker conf 3 (b'e' ∷ []) two_trackers)
        → GoesTo sync_error_msg two_trackers.trackers url)
    × (route tracker_routes post (bytes "/upload") ≡ some quick_upload)
    × (route storage_routes post (bytes "/upload") ≡ some upload_file)
    × (route tracker_routes get (bytes "/download") ≡ some download)
    × (route storage_routes get (bytes "/download") ≡ some download_file)
    × (route storage_routes post (bytes "/sync") ≡ some sync_file)
    × (route tracker_routes post (bytes "/v1/upload") ≡ none)
    × (route storage_routes post (bytes "/v1/upload") ≡ none)
unfolding eggdfs.Tracker.Repair.sync_path
calls_routed_example = calls_routed conf (some 9) 3 (b'e' ∷ []) two_trackers
