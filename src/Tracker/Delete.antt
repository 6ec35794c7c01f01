-- ===== src/Tracker/Delete.antt =====
-- `Delete` of svc/tracker.go: the handler, which starts one goroutine (`delete_task` of
-- Tracker/Sync.antt) for each storage of the group.
pub mod Tasks
use eggdfs.Base.{
  ℕ, Bool, true, false, Option, none, some, List, [], ◌∷◌, ◌++◌, Outcome, done, panic, ◌>>=◌,
  if◌then◌else◌,
}
use eggdfs.Base.Visit.{Visit}
use eggdfs.Common.Const.{success, param_bind_fail}
use eggdfs.Group.{StorageServer, get_storages}
use eggdfs.Tracker.{Tracker, get_group}
use eggdfs.Tracker.Sync.{DeleteFile}

-- A goroutine that meets a nil pointer panics when it runs, at `server.HttpSchema`.
abbrev pub Started : Type 0
Started = List (Option StorageServer)

module _ {S : Type 0} where
  -- `bound` says whether `ShouldBind` succeeded: if not, an answer is sent and the handler goes on.
  -- A missing group is a nil pointer. The result is the statuses that were sent, in order, and the
  -- servers of the goroutines.
  unfoldable pub delete :
      Visit StorageServer → Bool → DeleteFile → Tracker S → Outcome (List ℕ × Started)
  delete v bound file t = elim (get_group file.group t) [
    | none ↦ panic
    | some g ↦
        done ((if bound then success ∷ [] else param_bind_fail ∷ success ∷ []), get_storages v g)
  ]
