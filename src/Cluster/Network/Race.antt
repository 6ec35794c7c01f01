-- ===== src/Cluster/Network/Race.antt =====
-- A deletion that overtakes the copy of the same file.
use eggdfs.Base.{
  ◌≡◌, ◌≢◌, sym, ap, ◌∙◌, inl, true, false, Option, none, some, [], Outcome, done, ok, ◌>>=◌, arith,
  length,
}
use eggdfs.Base.Dict.{Dict, lookup, insert, lookup-insert, lookup-insert_self}
use eggdfs.Base.Text.{Text, text_eq, text_eq_iff, text_eq_refl, has_byte}
use eggdfs.Cluster.{content_of, static_file}
use eggdfs.Cluster.Network.{Web, Node, Network, url_of, run_copy}
use eggdfs.Cluster.Network.Clear.{run_deletion, CanClear, deletion_step}
use eggdfs.Cluster.Network.Converge.{held, wants, Serves, copy_step, Serves-insert, held-insert}
use eggdfs.Common.Const.{success, storage_active, storage_offline}
use eggdfs.Common.Json.{Json}
use eggdfs.Db.{LevelDb}
use eggdfs.Disk.{calm}
use eggdfs.Disk.Files.{SameBut}
use eggdfs.Group.{StorageServer}
use eggdfs.Storage.{Storage, Answer, answer, slash}
use eggdfs.Storage.Download.Laws.{slash_assoc}
use eggdfs.Storage.Place.{HasRoom}
use eggdfs.Storage.Place.After.{HasRoom-after}
use eggdfs.Tracker.Sync.{DeleteFile, sync_accepted, delete_accepted}

module _ {S : Type 0} where
  held-insert_other :
      (path : Text) (nodes : Dict (Node S)) (url u : Text) (n : Node S)
      → url ≢ u
      → held path (insert url n nodes) u ≡ held path nodes u
  unfolding held
  held-insert_other path nodes url u n apart =
      let differ : text_eq url u ≡ false = ground (arith, text_eq_iff url u) in
      rw (held, lookup-insert url u n nodes, differ)

  held-insert_empty :
      (path : Text) (nodes : Dict (Node S)) (url : Text) (n : Node S)
      → lookup (slash n.config.storage.storage_dir path) n.storage.disk ≡ none
      → held path (insert url n nodes) url ≡ none
  unfolding held static_file content_of
  held-insert_empty path nodes url n gone = rw (held, lookup-insert_self url n nodes, gone)

module _ (D : LevelDb) (J : Json) (web : Web) (reply : Option Answer → Text) (refused : Text)
    (base leaf content : Text) (full : length content ≢ 0) (clean : has_byte b'/' leaf ≡ false)
    (src server : StorageServer) (group uuid hash : Text) (file : DeleteFile)
    (path : file.file ≡ slash base leaf) where
  -- The goroutine of the deletion for a replica, that of the copy to it, and that of the deletion for the
  -- source, in this order.
  unfoldable pub overtaken : Network D.State → Outcome (Network D.State)
  unfolding run_deletion run_copy
  overtaken k = do
    k₁ ← run_deletion D J reply refused group file calm server k
    k₂ ←
        run_copy D J web reply refused calm
          (server, wants D J web reply refused base leaf content src group uuid hash server) k₁
    run_deletion D J reply refused group file calm src k₂

  room_left :
      (n : Node D.State) (b : Storage D.State)
      → lookup (slash n.config.storage.storage_dir (slash base leaf)) b.disk ≡ none
      → SameBut (slash n.config.storage.storage_dir (slash base leaf)) n.storage.disk b.disk
      → HasRoom (slash n.config.storage.storage_dir base) leaf n.storage.disk
      → HasRoom (slash n.config.storage.storage_dir base) leaf b.disk
  room_left n b gone same room =
      let spot = slash_assoc n.config.storage.storage_dir base leaf in
      HasRoom-after (slash n.config.storage.storage_dir base) leaf n.storage.disk b.disk room
        (λ e. cc (gone, ap (λ p. lookup p b.disk) spot, e))
        (λ q differ. inl (same q (ap (λ p. text_eq p q) (sym spot) ∙ differ)))

  -- Where a deletion reaches a replica before the copy of the upload does, every goroutine ends with a
  -- success: the replica keeps the file, the source has lost it, and the tracker, with its log, is as it
  -- was, so that nothing will remove the file. It is so for any replica and source that are active, stand
  -- at two URLs and can do what they are asked, where the source serves a content that is not empty
  -- at a URL that is read as it is written, and the request for the copy survives JSON.
  pub deletion_overtakes :
      (k : Network D.State)
      → sync_accepted J (ok (reply (some (answer success [])))) ≡ true
      → delete_accepted J (ok (reply (some (answer success [])))) ≡ true
      → server.status ≡ storage_active
      → src.status ≡ storage_active
      → url_of server ≢ url_of src
      → (serves : Serves D J web reply refused base leaf content src group uuid hash k.nodes)
      → (first : CanClear D J reply refused group file base leaf path clean k.nodes src)
      → (second : CanClear D J reply refused group file base leaf path clean k.nodes server)
      → HasRoom (slash second.node.config.storage.storage_dir base) leaf second.node.storage.disk
      → web.bind (
          J.marshal_sync (wants D J web reply refused base leaf content src group uuid hash server))
        ≡ wants D J web reply refused base leaf content src group uuid hash server
      → (nodes : Dict (Node D.State)) × (overtaken k ≡ done (record k { nodes = nodes }))
        × (held (slash base leaf) nodes (url_of server) ≡ some content)
        × (held (slash base leaf) nodes (url_of src) ≡ none)
  unfolding overtaken
  deletion_overtakes k synced deleted up src_up apart serves first second room arrives =
      let on : server.status ≢ storage_offline = λ e. absurd (omega (arith, e, up)) in
      let src_on : src.status ≢ storage_offline = λ e. absurd (omega (arith, e, src_up)) in
      let (b, run₁, gone, same, once) =
        deletion_step D J reply refused group file base leaf path clean server k deleted on
          second in
      let n : Node D.State = record second.node { storage = b } in
      let nodes₁ = insert (url_of server) n k.nodes in
      let k₁ : Network D.State = record k { nodes = nodes₁ } in
      let (m, run₂, holds, room') =
        copy_step D J web reply refused base leaf content src group uuid hash full server k₁ synced
          up
          (Serves-insert D J web reply refused base leaf content src group uuid hash full k.nodes
            (url_of server) n apart serves)
          (record {
            node = n;
            at = lookup-insert_self (url_of server) n k.nodes;
            room = room_left second.node b gone same room;
            arrives = arrives;
          }) in
      let nodes₂ = insert (url_of server) m nodes₁ in
      let k₂ : Network D.State = record k { nodes = nodes₂ } in
      let differ : text_eq (url_of server) (url_of src) ≡ false =
        ground (arith, text_eq_iff (url_of server) (url_of src)) in
      let (a, run₃, gone₃, same₃, once₃) =
        deletion_step D J reply refused group file base leaf path clean src k₂ deleted src_on
          (record {
            node = first.node;
            at =
                lookup-insert (url_of server) (url_of src) m nodes₁
                ∙ rw differ
                    (lookup-insert (url_of server) (url_of src) n k.nodes ∙ rw differ first.at);
            once = first.once;
            free = first.free;
          }) in
      let l : Node D.State = record first.node { storage = a } in
      (
        insert (url_of src) l nodes₂,
        rw (overtaken, run₁, run₂, run₃),
        held-insert_other (slash base leaf) nodes₂ (url_of src) (url_of server) l
              (λ e. apart (sym e))
            ∙ held-insert D J web reply refused base leaf content src group uuid hash full nodes₁
                (url_of server) (url_of server) m holds (inl (text_eq_refl (url_of server))),
        held-insert_empty (slash base leaf) nodes₂ (url_of src) l gone₃,
      )
