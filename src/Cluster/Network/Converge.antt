-- ===== src/Cluster/Network/Converge.antt =====
-- The goroutines of an upload, in any order: every storage that they reach serves the file.
use mathlib.Core.List.{Mem, mem-cons, not-mem-nil}
use mathlib.Core.Logic.Or
use mathlib.Core.Option.{some-injective}
use eggdfs.Base.{
  ◌≡◌, ◌≢◌, ◌⊎◌, refl, sym, ap, ◌∙◌, inl, inr, true, false, Option, none, some, List, [], ◌∷◌, done,
  ok, ◌==◌, ==_iff, length, Bool-cases, arith,
}
use eggdfs.Base.Dict.{Dict, lookup, insert, lookup-insert}
use eggdfs.Base.Text.{Text, text_eq, text_eq_iff, Text-set}
use eggdfs.Cluster.{content_of, static_file}
use eggdfs.Cluster.Network.{
  Web, Node, Network, url_of, below, page, get_page, take_copy, run_copy, run_copies,
}
use eggdfs.Cluster.Replicas.{sync_add_run}
use eggdfs.Common.Const.{success, storage_active}
use eggdfs.Common.Json.{Json}
use eggdfs.Common.Model.{SyncFileInfo}
use eggdfs.Db.{LevelDb}
use eggdfs.Disk.{calm, file, dir}
use eggdfs.Group.{StorageServer}
use eggdfs.Storage.{Storage, Answer, answer, slash}
use eggdfs.Storage.Download.Laws.{slash_assoc}
use eggdfs.Storage.Place.{HasRoom}
use eggdfs.Storage.Place.After.{HasRoom-after, dir-ne-file}
use eggdfs.Storage.Sync.{source_url, sync}
use eggdfs.Storage.Sync.Add.{sync_file_add_lem}
use eggdfs.Tracker.{Tracker}
use eggdfs.Tracker.Sync.{sync_accepted, sync_file}
use eggdfs.Tracker.Upload.{SyncTask, sync_info}

-- What a storage serves at a URL, if there is a storage.
unfoldable pub held : {S : Type 0} → Text → Dict (Node S) → Text → Option Text
unfolding static_file
held path nodes url = elim (lookup url nodes) [
  | none ↦ none
  | some n ↦ static_file n.config n.storage path
]

pub held-set : IsSet (Option Text)
held-set = hlevel (Text-set)

below-slash : (group path : Text) → below group (slash group path) ≡ some path
unfolding below slash
below-slash [] path = refl
below-slash (a ∷ group) path =
    let same : (a == a) ≡ true = (==_iff a a).1 refl in rw same (below-slash group path)

module _ (D : LevelDb) (J : Json) (web : Web) (reply : Option Answer → Text)
    (refused path name content : Text) (src : StorageServer) (group uuid hash : Text) where
  -- The request for the copy to one storage.
  abbrev pub wants : StorageServer → SyncFileInfo
  wants server = sync_info src server group uuid path name hash

  -- The source stands at its URL, in its group, and serves the file. The URL of the file, which is not
  -- escaped, is read as it is written.
  pub record Serves (nodes : Dict (Node D.State)) : Type 0 where
    pub node : Node D.State
    pub at : lookup (url_of src) nodes ≡ some node
    pub reads :
        web.asked (slash (url_of src) (slash group (slash path name)))
        ≡ some (url_of src, slash group (slash path name))
    pub within : node.config.storage.group ≡ group
    pub holds : static_file node.config node.storage (slash path name) ≡ some content

  -- A storage stands at the URL of the server and has room for the file, and the request for the copy
  -- survives JSON.
  pub record CanTake (nodes : Dict (Node D.State)) (server : StorageServer) : Type 0 where
    pub node : Node D.State
    pub at : lookup (url_of server) nodes ≡ some node
    pub room : HasRoom (slash node.config.storage.storage_dir path) name node.storage.disk
    pub arrives : web.bind (J.marshal_sync (wants server)) ≡ wants server

  -- A copy to an active server that is not the source.
  pub record IsCopy (task : SyncTask) : Type 0 where
    pub info : task.1 ≡ wants task.0
    pub active : task.0.status ≡ storage_active
    pub apart : url_of task.0 ≢ url_of src

  pub got_page :
      (nodes : Dict (Node D.State)) (server : StorageServer)
      → Serves nodes
      → get_page web nodes (wants server) ≡ some (record { status = 200; body = content })
  unfolding get_page page sync_info source_url
  got_page nodes server serves =
      let inside : below serves.node.config.storage.group (slash group (slash path name))
          ≡ some (slash path name) =
        ap (λ g. below g (slash group (slash path name))) serves.within
        ∙ below-slash group (slash path name) in
      rw (get_page, serves.reads, serves.at, page, inside, serves.holds)

  -- The handler that the request reaches works on the request and on the page of the source.
  take_copy_run :
      (nodes : Dict (Node D.State)) (server : StorageServer)
      → Serves nodes
      → (can : CanTake nodes server)
      → take_copy D J web reply refused calm nodes (wants server) can.node
        ≡ sync D J can.node.config calm
            (wants server)
            (some (record { status = 200; body = content }))
            can.node.storage
  unfolding take_copy
  take_copy_run nodes server serves can =
      ap (λ i. sync D J can.node.config calm i (get_page web nodes i) can.node.storage) can.arrives
      ∙ ap (λ page. sync D J can.node.config calm (wants server) page can.node.storage)
          (got_page nodes server serves)

  module _ (full : length content ≢ 0) where
    took :
        (n : Node D.State) (server : StorageServer)
        → HasRoom (slash n.config.storage.storage_dir path) name n.storage.disk
        → (b : Storage D.State) × (sync D J n.config calm
              (wants server)
              (some (record { status = 200; body = content }))
              n.storage
            ≡ done ((some (answer success []), []), b))
          × (static_file n.config b (slash path name) ≡ some content)
          × HasRoom (slash n.config.storage.storage_dir path) name b.disk
    unfolding sync_info static_file
    took n server room =
        let (b, run, there, others, db) =
          sync_file_add_lem D J n.config (wants server) (record { status = 200; body = content })
            n.storage room full in
        (
          b,
          sync_add_run D J n.config calm (wants server) _ n.storage refl ∙ run,
          ap (λ p. content_of (lookup p b.disk))
                (sym (slash_assoc n.config.storage.storage_dir path name))
              ∙ ap content_of there,
          HasRoom-after (slash n.config.storage.storage_dir path) name n.storage.disk b.disk room
              (λ e. dir-ne-file content (some-injective dir (file content) (sym e ∙ there))) others,
        )

    accepted_run :
        (server : StorageServer) (t : Tracker D.State)
        → server.status ≡ storage_active
        → sync_accepted J (ok (reply (some (answer success [])))) ≡ true
        → sync_file D J server (wants server) (ok (reply (some (answer success [])))) t ≡ t
    unfolding sync_file
    accepted_run server t active accepted =
        let up : (server.status == storage_active) ≡ true = (==_iff _ _).1 active in
        rw (sync_file, up, accepted)

    pub copy_step :
        (server : StorageServer) (k : Network D.State)
        → sync_accepted J (ok (reply (some (answer success [])))) ≡ true
        → server.status ≡ storage_active
        → Serves k.nodes
        → (can : CanTake k.nodes server)
        → (n : Node D.State) × (run_copy D J web reply refused calm (server, wants server) k
            ≡ done (record k { nodes = insert (url_of server) n k.nodes }))
          × (static_file n.config n.storage (slash path name) ≡ some content)
          × HasRoom (slash n.config.storage.storage_dir path) name n.storage.disk
    unfolding run_copy
    copy_step server k accepted active serves can =
        let up : (server.status == storage_active) ≡ true = (==_iff _ _).1 active in
        let (b, run, holds, room) = took can.node server can.room in
        (
          record can.node { storage = b },
          rw (run_copy, up, can.at, take_copy_run k.nodes server serves can ∙ run)
              (ap
                (λ t. done (record {
                  tracker = t;
                  nodes = insert (url_of server) (record can.node { storage = b }) k.nodes;
                }))
                (accepted_run server k.tracker active accepted)),
          holds,
          room,
        )

    pub CanTake-insert :
        (nodes : Dict (Node D.State)) (url : Text) (n : Node D.State) (server : StorageServer)
        → HasRoom (slash n.config.storage.storage_dir path) name n.storage.disk
        → CanTake nodes server
        → CanTake (insert url n nodes) server
    CanTake-insert nodes url n server room can = elim (Bool-cases (text_eq url (url_of server))) [
      | inl same ↦ record {
        node = n;
        at = lookup-insert url (url_of server) n nodes ∙ rw same;
        room = room;
        arrives = can.arrives;
      }
      | inr differ ↦ record {
        node = can.node;
        at = lookup-insert url (url_of server) n nodes ∙ rw differ can.at;
        room = can.room;
        arrives = can.arrives;
      }
    ]

    pub Serves-insert :
        (nodes : Dict (Node D.State)) (url : Text) (n : Node D.State)
        → url ≢ url_of src
        → Serves nodes
        → Serves (insert url n nodes)
    Serves-insert nodes url n apart serves =
        let differ : text_eq url (url_of src) ≡ false =
          ground (arith, text_eq_iff url (url_of src)) in
        record {
          node = serves.node;
          at = lookup-insert url (url_of src) n nodes ∙ rw differ serves.at;
          reads = serves.reads;
          within = serves.within;
          holds = serves.holds;
        }

    pub held-insert :
        (nodes : Dict (Node D.State)) (url u : Text) (n : Node D.State)
        → static_file n.config n.storage (slash path name) ≡ some content
        → (text_eq url u ≡ true) ⊎ (held (slash path name) nodes u ≡ some content)
        → held (slash path name) (insert url n nodes) u ≡ some content
    unfolding held
    held-insert nodes url u n holds before = elim (Bool-cases (text_eq url u)) [
      | inl same ↦
          let here : lookup u (insert url n nodes) ≡ some n =
            lookup-insert url u n nodes ∙ rw same in
          rw (held, here, holds)
      | inr differ ↦
          let here : lookup u (insert url n nodes) ≡ lookup u nodes =
            lookup-insert url u n nodes ∙ rw differ in
          elim before [ inl same ↦ cc (same, differ) | inr old ↦ rw (held, here) old ]
    ]

    -- What the goroutines leave, whatever their order is.
    pub run_copies_lem :
        (tasks : List SyncTask) (k : Network D.State)
        → sync_accepted J (ok (reply (some (answer success [])))) ≡ true
        → ((task : SyncTask) → Mem task tasks → IsCopy task)
        → Serves k.nodes
        → ((task : SyncTask) → Mem task tasks → CanTake k.nodes task.0)
        → (nodes : Dict (Node D.State)) × (run_copies D J web reply refused calm tasks k
            ≡ done (record k { nodes = nodes }))
          × Serves nodes
          × ((u : Text)
              → held (slash path name) k.nodes u ≡ some content
              → held (slash path name) nodes u ≡ some content)
          × ((task : SyncTask)
              → Mem task tasks
              → held (slash path name) nodes (url_of task.0) ≡ some content)
    unfolding run_copies
    run_copies_lem [] k accepted copies serves can =
        (k.nodes, refl, serves, (λ u h. h), λ task m. absurd (not-mem-nil m))
    run_copies_lem ((server, info) ∷ rest) k accepted copies serves can =
        let first = copies (server, info) (mem-cons.1 (Or.inl refl)) in
        let (n, run, holds, room) =
          copy_step server k accepted first.active serves
            (can (server, info) (mem-cons.1 (Or.inl refl))) in
        let here = insert (url_of server) n k.nodes in
        let (nodes, runs, serves', keeps, reaches) =
          run_copies_lem rest (record k { nodes = here }) accepted
            (λ task m. copies task (mem-cons.1 (Or.inr m)))
            (Serves-insert k.nodes (url_of server) n first.apart serves)
            (λ task m.
              CanTake-insert k.nodes (url_of server) n task.0 room
                (can task (mem-cons.1 (Or.inr m)))) in
        let start : run_copy D J web reply refused calm (server, info) k
            ≡ done (record k { nodes = here }) =
          ap (λ i. run_copy D J web reply refused calm (server, i) k) first.info ∙ run in
        (
          nodes,
          rw (run_copies, start) runs,
          serves',
          (λ u h. keeps u (held-insert k.nodes (url_of server) u n holds (inr h))),
          λ task m.
              Or.elim (held-set _ _) (mem-cons.0 m)
                (λ same. keeps (url_of task.0) (
                  held-insert k.nodes (url_of server) (url_of task.0) n holds
                    (inl ((text_eq_iff _ _).1 (ap (λ (z : SyncTask). url_of z.0) (sym same))))))
                (λ i. reaches task i),
        )
