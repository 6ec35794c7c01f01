-- ===== src/Routes/Calls.antt =====
-- The calls between the processes meet the handlers that they are meant for.
use mathlib.Core.List.{Mem, mem-map}
use mathlib.Core.Logic.{∥∥₁_map}
use eggdfs.Base.{ℕ, ◌≡◌, refl, sym, ap, Option, none, some, List, ◌++◌, map}
use eggdfs.Base.Text.{Text, bytes, text_eq}
use eggdfs.Conf.{GlobalConfig}
use eggdfs.Routes.{
  get, post, route, tracker_routes, storage_routes, TrackerHandler, storage_status_report,
  quick_upload, sync_error_msg, download, download_file, sync_file, upload_file,
}
use eggdfs.Tracker.Repair.{sync_path}
use eggdfs.Storage.{Storage, StorageStatus, ErrMsg, status_reports, trans_error_log_to_tracker}

status_routed : route tracker_routes post (bytes "/status") ≡ some storage_status_report
unfolding route tracker_routes bytes text_eq
status_routed = refl

pub error_routed : route tracker_routes post (bytes "/err/log") ≡ some sync_error_msg
unfolding route tracker_routes bytes text_eq
error_routed = refl

-- The URL is that of one of the trackers with a path that the tracker gives to the handler.
abbrev pub GoesTo : TrackerHandler → List Text → Text → Type 0
GoesTo h trackers url = ∥ (
    (t : Text) × Mem t trackers
    × (path : Text) × (url ≡ t ++ path)
    × (route tracker_routes post path ≡ some h)) ∥₁

posts-GoesTo :
    {B : Type 0} (path : Text) (h : TrackerHandler) (trackers : List Text) (body : B) (url : Text)
    (b : B)
    → route tracker_routes post path ≡ some h
    → Mem {A = Text × B} (url, b) (map (λ t. (t ++ path, body)) trackers)
    → GoesTo h trackers url
posts-GoesTo {B} path h trackers body url b e m =
    ∥∥₁_map (mem-map.0 m) (λ (t, i, q). (t, i, path, sym (ap (λ (z : Text × B). z.0) q), e))

-- Every report of a storage goes to the status handler of one of its trackers, and every error message
-- to the handler of error messages. A request that a tracker passes on with its path, an upload or a
-- download, meets the handler of the same name at the storage, and a synchronisation its own. An upload
-- to the path with the prefix /v1 meets no handler, neither at a tracker nor at a storage.
pub calls_routed :
    {S : Type 0} (c : GlobalConfig) (free : Option ℕ) (code : ℕ) (msg : Text) (s : Storage S)
    → ((url : Text) (r : StorageStatus)
        → Mem (url, r) (status_reports c free s)
        → GoesTo storage_status_report s.trackers url)
      × ((url : Text) (m : ErrMsg)
          → Mem (url, m) (trans_error_log_to_tracker c code msg s)
          → GoesTo sync_error_msg s.trackers url)
      × (route tracker_routes post (bytes "/upload") ≡ some quick_upload)
      × (route storage_routes post (bytes "/upload") ≡ some upload_file)
      × (route tracker_routes get (bytes "/download") ≡ some download)
      × (route storage_routes get (bytes "/download") ≡ some download_file)
      × (route storage_routes post sync_path ≡ some sync_file)
      × (route tracker_routes post (bytes "/v1/upload") ≡ none)
      × (route storage_routes post (bytes "/v1/upload") ≡ none)
unfolding status_reports trans_error_log_to_tracker route tracker_routes storage_routes bytes
    text_eq sync_path
calls_routed c free code msg s = (
  (λ url r m.
      posts-GoesTo (bytes "/status") storage_status_report s.trackers _ url r status_routed m),
  (λ url e m. posts-GoesTo (bytes "/err/log") sync_error_msg s.trackers _ url e error_routed m),
  refl,
  refl,
  refl,
  refl,
  refl,
  refl,
  refl,
)
