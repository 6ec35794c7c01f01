-- ===== src/Cluster/Errors.antt =====
-- The errors that a storage reports, in the logs of its trackers.
use mathlib.Core.List.{map-map}
use eggdfs.Base.{ℕ, ◌≡◌, ap, ◌∙◌, List, [], ◌∷◌, ◌++◌, map, some, if◌then◌else◌}
use eggdfs.Base.Text.{Text, bytes, text_eq, join_host_port}
use eggdfs.Conf.{GlobalConfig}
use eggdfs.Logger.Lines.{Line, log_error}
use eggdfs.Routes.{post, route, tracker_routes, sync_error_msg}
use eggdfs.Routes.Calls.{error_routed}
use eggdfs.Storage.{Storage, ErrMsg, trans_error_log_to_tracker}
use eggdfs.Tracker.ErrorLog
use eggdfs.Tracker.ErrorLog.{err_line}

-- What a storage tells about an error.
abbrev pub message_of : GlobalConfig → ℕ → Text → ErrMsg
message_of c code msg = record {
  err_code = code;
  group = c.storage.group;
  host = c.host;
  port = c.port;
  err_msg = msg;
}

-- The line for an error of the storage with the configuration `c`: nothing where the text is empty.
abbrev pub lines_of : GlobalConfig → ℕ → Text → List Line
lines_of c code msg =
    if text_eq msg []
    then []
    else log_error (err_line code msg)
        ((bytes "addr", join_host_port c.host c.port) ∷ (bytes "group", c.storage.group) ∷ [])
      ∷ []

module _ {S : Type 0} (c : GlobalConfig) (code : ℕ) (msg : Text) (s : Storage S)
    (marshal : ErrMsg → Text) (bind : Text → ErrMsg) where
  one_line :
      bind (marshal (message_of c code msg)) ≡ message_of c code msg
      → eggdfs.Tracker.ErrorLog.sync_error_msg bind (marshal (message_of c code msg))
        ≡ lines_of c code msg
  unfolding eggdfs.Tracker.ErrorLog.sync_error_msg
  one_line back = rw back

  -- An error of a storage goes to each of its trackers, to the path that the tracker gives to
  -- `SyncErrorMsg`. If its message survives JSON, each tracker logs one line with the code and the
  -- text, under the address and the group of the storage, and none where the text is empty.
  pub errors_logged :
      bind (marshal (message_of c code msg)) ≡ message_of c code msg
      → (map {B = Text × List Line}
            (λ (post : Text × ErrMsg).
              (post.0, eggdfs.Tracker.ErrorLog.sync_error_msg bind (marshal post.1)))
            (trans_error_log_to_tracker c code msg s)
          ≡ map {B = Text × List Line}
              (λ t. (t ++ bytes "/err/log", lines_of c code msg))
              s.trackers)
        × (route tracker_routes post (bytes "/err/log") ≡ some sync_error_msg)
  unfolding trans_error_log_to_tracker
  errors_logged back = (
    map-map _ _ s.trackers
        ∙ ap (λ lines. map {B = Text × List Line} (λ t. (t ++ bytes "/err/log", lines)) s.trackers)
            (one_line back),
    error_routed,
  )
