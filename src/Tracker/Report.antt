-- ===== src/Tracker/Report.antt =====
-- `StorageStatusReport` and `SetTrackerStatus` of svc/tracker.go.
pub mod Laws
pub mod Servers
pub mod Accepted
pub mod Effect
pub mod Available
use eggdfs.Base.{
  ℕ, Bool, true, false, none, some, [], ◌∷◌, ◌||◌, Outcome, done, panic, blocked, ◌>>=◌, Result, ok,
  err, leb, if◌then◌else◌,
}
use eggdfs.Base.Text.{Text, text_eq, join_host_port}
use eggdfs.Base.Dict.{Dict}
use eggdfs.Base.Visit.{Visit}
use eggdfs.Common.Const.{storage_active, storage_not_enough_space, min_storage_space, group_active}
use eggdfs.Group.{StorageServer, Group, save_or_update_storage}
use eggdfs.Group.Sweep.{refresh_group}
use eggdfs.Tracker.{Tracker, get_group, is_exist_group, register_group, put_group}

-- The body of a request to /status. A field that the JSON lacks is empty or 0: the handler logs a
-- failed binding and goes on.
pub record Params : Type 0 where
  pub group : Text
  pub http_schema : Text
  pub host : Text
  pub port : Text
  pub free : ℕ

-- The server that a report describes, at the time `now`.
unfoldable pub reported : ℕ → Params → StorageServer
reported now p = record {
  group = p.group;
  http_schema = p.http_schema;
  addr = join_host_port p.host p.port;
  status = if leb p.free min_storage_space then storage_not_enough_space else storage_active;
  free = p.free;
  update_time = now;
}

-- Each group is written through its own pointer, so the order of the groups does not matter.
unfoldable pub refresh_groups : Visit StorageServer → ℕ → Dict Group → Outcome (Dict Group)
refresh_groups v now [] = done []
refresh_groups v now ((n, g) ∷ m) = do
  h ← refresh_group v now g
  m' ← refresh_groups v now m
  done ((n, h) ∷ m')

-- `_ = group.SaveOrUpdateStorage(sm)` writes through the pointer `group`.
unfoldable pub saved : StorageServer → Group → Outcome Group
saved sm g = do r ← save_or_update_storage sm g; elim r [ ok g' ↦ done g' | err _ ↦ done g ]

unfoldable pub new_group : StorageServer → Group
new_group sm = record {
  name = sm.group;
  status = group_active;
  cap = sm.free;
  storages = [];
  readers = 0;
}

module _ {S : Type 0} where
  unfoldable pub set_tracker_status : Visit StorageServer → ℕ → Tracker S → Outcome (Tracker S)
  unfolding refresh_groups
  set_tracker_status v now t = do
    gs ← refresh_groups v now t.groups
    done (record t { groups = gs })

  -- The branch for a group that is not registered yet.
  unfoldable pub ensure_group : StorageServer → Tracker S → Outcome (Tracker S)
  unfolding saved new_group
  ensure_group sm t = if is_exist_group sm.group t then done t else (do
    g ← saved sm (new_group sm)
    elim (register_group g t) [ ok t' ↦ done t' | err _ ↦ done t ])

  -- The rest under the lock. The two early returns do not release it.
  unfoldable pub report_locked :
      Visit StorageServer → ℕ → StorageServer → Tracker S → Outcome (Tracker S)
  unfolding set_tracker_status
  report_locked v later sm t = elim (get_group sm.group t) [
    | none ↦ done t
    | some g ↦ do
      r ← save_or_update_storage sm g
      elim r [
        | err _ ↦ done t
        | ok g' ↦ do
          t' ← set_tracker_status v later (put_group g' t)
          done (record t' { locked = false })
      ]
  ]

  -- `now` is the time of the report and `later` that of the status computation.
  unfoldable pub storage_status_report :
      Visit StorageServer → ℕ → ℕ → Params → Tracker S → Outcome (Tracker S)
  unfolding reported ensure_group report_locked
  storage_status_report v now later p t =
      if text_eq p.port [] || text_eq p.host []
      then done t
      else if text_eq p.group []
      then done t
      else if t.locked
      then blocked
      else (do
        t' ← ensure_group (reported now p) (record t { locked = true })
        report_locked v later (reported now p) t')
