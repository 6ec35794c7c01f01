-- ===== src/Tracker/ErrorLog.antt =====
-- `SyncErrorMsg` of svc/tracker.go: an error of a storage becomes a line of the tracker's log. The
-- codes are those of common/const.go, none of which is negative.
use eggdfs.Base.{ℕ, List, [], ◌∷◌, ◌++◌, if◌then◌else◌}
use eggdfs.Base.Decimal.{itoa}
use eggdfs.Base.Text.{Text, bytes, text_eq, join_host_port}
use eggdfs.Logger.Lines.{Line, log_error}
use eggdfs.Storage.{ErrMsg}

-- `fmt.Sprintf("sync err log => errcode:%d,msg:%s", code, msg)`
unfoldable pub err_line : ℕ → Text → Text
err_line code msg = bytes "sync err log => errcode:" ++ (itoa code ++ (bytes ",msg:" ++ msg))

-- `bind` is what the body leaves in an empty message: the error of `ShouldBindJSON` is dropped.
unfoldable pub sync_error_msg : (Text → ErrMsg) → Text → List Line
unfolding err_line log_error
sync_error_msg bind body =
    let err_msg = bind body in
    if text_eq err_msg.err_msg []
    then []
    else log_error (err_line err_msg.err_code err_msg.err_msg) (
        (bytes "addr", join_host_port err_msg.host err_msg.port)
        ∷ (bytes "group", err_msg.group)
        ∷ [])
      ∷ []
