-- ===== src/Tracker/Query.antt =====
-- The handlers of svc/tracker.go that answer about groups: `GroupStatus` and `Download`.
pub mod Laws
pub mod Status
use eggdfs.Base.{
  ℕ, Option, none, some, List, [], ◌∷◌, Outcome, done, panic, ◌>>=◌, Result, ok, err, ◌==◌,
  if◌then◌else◌,
}
use eggdfs.Base.Text.{Text, bytes, text_eq}
use eggdfs.Base.Visit.{Visit}
use eggdfs.Common.Const.{success, fail, param_bind_fail, group_active}
use eggdfs.Common.Model.{RespResult}
use eggdfs.Group.{StorageServer, Group}
use eggdfs.Tracker.{Tracker, get_group, get_groups}
use eggdfs.Tracker.Proxy.{Proxied, Relayed, new_tracker_proxy, http_proxy}
use eggdfs.Tracker.Select.{select_storage_ip_hash}

unfoldable pub no_such_group : Text
no_such_group = bytes "no such group"

unfoldable pub no_group_or_storage : Text
no_group_or_storage = bytes "no available group or storage"

unfoldable pub no_group : Text
no_group = bytes "no available group"

-- The field `Data` of the answer.
pub data Shown : Type 0 where
  nothing : Shown
  one : Group → Shown
  every : List Group → Shown

-- The answer of a download: a JSON status, or what came through the proxy.
pub data Fetched : Type 0 where
  refused : RespResult (Unit {0}) → Fetched
  through : Relayed → Fetched

abbrev pub answer {ℓ} : {D : Type ℓ} → ℕ → Text → D → RespResult D
answer status message d = record { status = status; message = message; data' = d }

module _ {S : Type 0} where
  unfoldable pub group_status : Visit Group → Text → Tracker S → RespResult Shown
  group_status v name t =
      if text_eq name []
      then answer success [] (every (get_groups v t))
      else elim (get_group name t) [
        | some g ↦ answer success [] (one g)
        | none ↦ answer fail no_such_group nothing
      ]

  -- The rest of `Download` once a storage is selected.
  unfoldable pub fetch_from :
      (Text → Option Text) → StorageServer → Proxied → Tracker S → Outcome (Fetched × Tracker S)
  fetch_from parse s p t = do
    (sent, t') ← http_proxy parse (new_tracker_proxy s.http_schema s.addr s.group) p t
    elim sent [ err e ↦ done (refused (answer fail e tt), t') | ok back ↦ done (through back, t') ]

  unfoldable pub fetch :
      Visit StorageServer
      → (Text → ℕ)
      → (Text → Option Text)
      → Text
      → Group
      → Proxied
      → Tracker S
      → Outcome (Fetched × Tracker S)
  unfolding fetch_from
  fetch v hash parse ip g p t = do
    r ← select_storage_ip_hash v hash ip g
    elim r [
      | err e ↦ done (refused (answer fail no_group_or_storage tt), t)
      | ok s ↦ fetch_from parse s p t
    ]

  -- `name` is the query's group.
  unfoldable pub download :
      Visit StorageServer
      → (Text → ℕ)
      → (Text → Option Text)
      → Text
      → Text
      → Proxied
      → Tracker S
      → Outcome (Fetched × Tracker S)
  unfolding fetch
  download v hash parse name ip p t =
      if text_eq name []
      then done (refused (answer param_bind_fail [] tt), t)
      else elim (get_group name t) [
        | none ↦ done (refused (answer fail no_group tt), t)
        | some g ↦
            if g.status == group_active
            then fetch v hash parse ip g p t
            else done (refused (answer fail no_group tt), t)
      ]
