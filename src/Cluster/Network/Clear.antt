-- ===== src/Cluster/Network/Clear.antt =====
-- The goroutines of a deletion, in any order: no storage that they reach serves the file.
pub mod Deletions
use mathlib.Core.List.{Mem, mem-cons, not-mem-nil}
use mathlib.Core.Logic.Or
use mathlib.Core.Option.{some-injective, none-ne-some}
use eggdfs.Base.{
  ℕ, ◌≡◌, ◌≢◌, ◌⊎◌, refl, sym, ap, ◌∙◌, subst, inl, inr, Bool, true, false, not, ◌&&◌, Option, none,
  some, List, [], ◌∷◌, ◌++◌, Outcome, done, panic, ◌>>=◌, Result, ok, err, ◌==◌, ==_iff,
  if◌then◌else◌, Bool-cases, arith,
}
use eggdfs.Base.Dict.{Dict, lookup, insert, NodupKeys, lookup-insert}
use eggdfs.Base.Text.{Text, text_eq, text_eq_iff, has_byte}
use eggdfs.Cluster.{content_of, static_file}
use eggdfs.Cluster.Network.{Node, Network, url_of}
use eggdfs.Cluster.Network.Converge.{held, held-set}
use eggdfs.Cluster.Removal.{delete_task_run}
use eggdfs.Common.Const.{success, storage_offline}
use eggdfs.Common.Json.{Json}
use eggdfs.Common.Model.{SyncFileInfo}
use eggdfs.Db.{LevelDb}
use eggdfs.Disk.Files.{SameBut}
use eggdfs.Disk.{Faults, calm, dir, Entry}
use eggdfs.Group.{StorageServer}
use eggdfs.Storage.{Storage, Answer, answer, slash}
use eggdfs.Storage.Download.Laws.{slash_assoc}
use eggdfs.Storage.Effects.{sync_path}
use eggdfs.Storage.Effects.Syncs.{sync_keeps}
use eggdfs.Storage.Reach.{NodupKeys-Closed}
use eggdfs.Storage.Sync.{sync, sync_file_delete}
use eggdfs.Storage.Sync.Removes.{sync_delete_run, delete_gone}
use eggdfs.Tracker.{Tracker}
use eggdfs.Tracker.Sync.{DeleteFile, delete_accepted, delete_info, delete_task}
use eggdfs.Util.{parse_header_file_path}
use eggdfs.Util.Paths.{parse_header_file_path_iff}

module _ (D : LevelDb) (J : Json) (reply : Option Answer → Text) (refused : Text) (group : Text)
    (file : DeleteFile) where
  -- The answer of the server, and the network once it has answered. A server that is offline is not
  -- asked. The body of the request is taken as it was sent.
  unfoldable pub ask_deletion :
      Faults
      → StorageServer
      → SyncFileInfo
      → Network D.State
      → Outcome (Result Text Text × Network D.State)
  unfolding sync
  ask_deletion f server info k =
      if server.status == storage_offline
      then done (err refused, k)
      else elim (lookup (url_of server) k.nodes) [
        | none ↦ done (err refused, k)
        | some n ↦ do
          r ← sync D J n.config f info none n.storage
          done (
            ok (reply r.0.0),
            record k { nodes = insert (url_of server) (record n { storage = r.1 }) k.nodes },
          )
      ]

  -- One goroutine of `Delete`.
  unfoldable pub run_deletion : Faults → StorageServer → Network D.State → Outcome (Network D.State)
  unfolding ask_deletion delete_task delete_info parse_header_file_path
  run_deletion f server k = do
    (dir_of, name) ← parse_header_file_path file.file
    r ← ask_deletion f server (delete_info D J server group file dir_of name) k
    t ← delete_task D J server group file r.0 k.tracker
    done (record r.1 { tracker = t })

  -- The goroutines in the order in which they come to run; a nil pointer panics.
  unfoldable pub run_deletions :
      Faults → List (Option StorageServer) → Network D.State → Outcome (Network D.State)
  unfolding run_deletion
  run_deletions f [] k = done k
  run_deletions f (none ∷ rest) k = panic
  run_deletions f (some server ∷ rest) k = do k' ← run_deletion f server k; run_deletions f rest k'

  module _ (base leaf : Text) (path : file.file ≡ slash base leaf)
      (clean : has_byte b'/' leaf ≡ false) where
    -- A storage stands at the URL of the server, whose disk lists no path twice and has no directory in
    -- the place of the file.
    pub record CanClear (nodes : Dict (Node D.State)) (server : StorageServer) : Type 0 where
      pub node : Node D.State
      pub at : lookup (url_of server) nodes ≡ some node
      pub once : NodupKeys node.storage.disk
      pub free :
          lookup (slash node.config.storage.storage_dir (slash base leaf)) node.storage.disk
          ≢ some dir

    parsed : parse_header_file_path file.file ≡ done (base, leaf)
    unfolding slash
    parsed = (parse_header_file_path_iff file.file base leaf).1 (path, clean)

    cleared :
        (n : Node D.State) (server : StorageServer)
        → NodupKeys n.storage.disk
        → lookup (slash n.config.storage.storage_dir (slash base leaf)) n.storage.disk ≢ some dir
        → (b : Storage D.State) × (sync D J n.config calm
              (delete_info D J server group file base leaf)
              none
              n.storage
            ≡ done ((some (answer success []), []), b))
          × (lookup (slash n.config.storage.storage_dir (slash base leaf)) b.disk ≡ none)
          × SameBut (slash n.config.storage.storage_dir (slash base leaf)) n.storage.disk b.disk
          × NodupKeys b.disk
    unfolding delete_info
    cleared n server once free =
        let info = delete_info D J server group file base leaf in
        let run = sync_delete_run D J n.config info n.storage refl none free in
        (
          (sync_file_delete D J n.config calm info n.storage).1,
          run,
          (delete_gone D J n.config info n.storage once free).0,
          (delete_gone D J n.config info n.storage once free).1,
          sync_keeps D J n.config calm (NodupKeys {V = Entry}) info
              (NodupKeys-Closed (sync_path n.config info)) none n.storage once _ _ run,
        )

    pub deletion_step :
        (server : StorageServer) (k : Network D.State)
        → delete_accepted J (ok (reply (some (answer success [])))) ≡ true
        → server.status ≢ storage_offline
        → (can : CanClear k.nodes server)
        → (b : Storage D.State) × (run_deletion calm server k
            ≡ done (record k {
              nodes = insert (url_of server) (record can.node { storage = b }) k.nodes;
            }))
          × (lookup (slash can.node.config.storage.storage_dir (slash base leaf)) b.disk ≡ none)
          × SameBut
              (slash can.node.config.storage.storage_dir (slash base leaf))
              can.node.storage.disk
              b.disk
          × NodupKeys b.disk
    unfolding run_deletion
    deletion_step server k accepted up can =
        let on : (server.status == storage_offline) ≡ false =
          ground (arith, ==_iff server.status storage_offline) in
        let (b, run, gone, same, once) = cleared can.node server can.once can.free in
        (b, rw (run_deletion, parsed, ask_deletion, on, can.at, run, accepted), gone, same, once)
