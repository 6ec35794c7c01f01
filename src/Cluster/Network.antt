-- ===== src/Cluster/Network.antt =====
-- A tracker, its storages by their URLs, and the goroutines of the tracker that reach them: `SyncFile`
-- of svc/tracker.go with the handler `Sync` of svc/storage.go at the other end.
pub mod Converge
pub mod Uploads
pub mod Clear
pub mod Race
use eggdfs.Base.{
  Option, none, some, List, [], ◌∷◌, Outcome, done, ◌>>=◌, Result, ok, err, ◌==◌, if◌then◌else◌,
}
use eggdfs.Base.Dict.{Dict, lookup, insert}
use eggdfs.Base.Text.{Text, bytes, text_eq}
use eggdfs.Cluster.{static_file}
use eggdfs.Common.Const.{storage_active}
use eggdfs.Common.Json.{Json}
use eggdfs.Common.Model.{SyncFileInfo}
use eggdfs.Conf.{GlobalConfig}
use eggdfs.Db.{LevelDb}
use eggdfs.Disk.{Faults}
use eggdfs.Group.{StorageServer}
use eggdfs.Storage.{Storage, Answer}
use eggdfs.Storage.Sync.{Response, Synced, source_url, sync}
use eggdfs.Tracker.{Tracker}
use eggdfs.Tracker.Proxy.{address_url}
use eggdfs.Tracker.Sync.{sync_file}
use eggdfs.Tracker.Upload.{SyncTask}

pub record Node (S : Type 0) : Type 0 where
  pub config : GlobalConfig
  pub storage : Storage S

-- The key of a node is its URL, `schema://host:port`.
pub record Network (S : Type 0) : Type 0 where
  pub tracker : Tracker S
  pub nodes : Dict (Node S)

abbrev pub url_of : StorageServer → Text
url_of server = address_url server.http_schema server.addr

-- What lies between two processes. `asked` is what `http.Get` makes of a URL, and the file server of the
-- path in it: the base URL, and the path after the slash behind it, unescaped and cleaned. `elsewhere` is
-- what a storage answers for a path that is no file of its group, and `bind` what `ShouldBindJSON`
-- leaves of a body in an empty record, its error dropped.
pub record Web : Type 0 where
  pub asked : Text → Option (Text × Text)
  pub elsewhere : Text → Response
  pub bind : Text → SyncFileInfo

-- What follows the name of the group and a slash.
unfoldable pub below : Text → Text → Option Text
below [] [] = none
below [] (c ∷ path) = if c == b'/' then some path else none
below (a ∷ group) [] = none
below (a ∷ group) (c ∷ path) = let rest = below group path in if a == c then rest else none

module _ {S : Type 0} (web : Web) where
  -- The page of a path: a file, where it lies below the group's name.
  unfoldable pub page : Node S → Text → Response
  unfolding static_file below
  page n path =
      let other = web.elsewhere path in
      elim (below n.config.storage.group path) [
        | none ↦ other
        | some rest ↦ elim (static_file n.config n.storage rest) [
          | some body ↦ record { status = 200; body = body }
          | none ↦ other
        ]
      ]

  -- What `http.Get` of `source_url` returns, or none where the URL is bad or nobody answers.
  unfoldable pub get_page : Dict (Node S) → SyncFileInfo → Option Response
  unfolding page source_url
  get_page nodes info = elim (web.asked (source_url info)) [
    | none ↦ none
    | some (host, path) ↦ elim (lookup host nodes) [ none ↦ none | some n ↦ some (page n path) ]
  ]

-- `reply` is the body that an answer of a
-- storage has on its way to the tracker, and `refused` the error of a post that nobody takes.
module _ (D : LevelDb) (J : Json) (web : Web) (reply : Option Answer → Text) (refused : Text) where
  -- `Sync` at the storage that the request for a copy reaches.
  unfoldable pub take_copy :
      Faults
      → Dict (Node D.State)
      → SyncFileInfo
      → Node D.State
      → Outcome (Synced × Storage D.State)
  unfolding sync get_page
  take_copy f nodes info n =
      let got = web.bind (J.marshal_sync info) in
      sync D J n.config f got (get_page web nodes got) n.storage

  -- One goroutine, for a copy. A server that is not active is not asked.
  unfoldable pub run_copy : Faults → SyncTask → Network D.State → Outcome (Network D.State)
  unfolding sync_file take_copy
  run_copy f (server, info) k =
      if server.status == storage_active
      then elim (lookup (url_of server) k.nodes) [
        | none ↦ done (record k { tracker = sync_file D J server info (err refused) k.tracker })
        | some n ↦ do
          r ← take_copy f k.nodes info n
          done (record {
            tracker = sync_file D J server info (ok (reply r.0.0)) k.tracker;
            nodes = insert (url_of server) (record n { storage = r.1 }) k.nodes;
          })
      ]
      else done (record k { tracker = sync_file D J server info (err refused) k.tracker })

  -- The goroutines of an upload, in the order in which they come to run.
  unfoldable pub run_copies : Faults → List SyncTask → Network D.State → Outcome (Network D.State)
  unfolding run_copy
  run_copies f [] k = done k
  run_copies f (task ∷ rest) k = do k' ← run_copy f task k; run_copies f rest k'
