-- ===== src/Cluster/Network/Uploads.antt =====
-- An upload, once the goroutines that copy it have run.
use mathlib.Core.List.{Mem, Perm}
use mathlib.Core.List.Perm
use mathlib.Core.Option.{some-injective}
use eggdfs.Base.{
  ◌≡◌, ◌≢◌, sym, ap, ◌∙◌, subst, inl, inr, true, false, Option, some, List, [], done, ok, length,
  Bool-cases, done-injective,
}
use eggdfs.Base.Dict.{Dict, lookup}
use eggdfs.Base.Text.{Text, text_eq, text_eq_iff, has_byte}
use eggdfs.Base.Visit.{Visit}
use eggdfs.Cluster.{content_of, static_file}
use eggdfs.Cluster.Network.{Web, Node, Network, url_of, run_copies}
use eggdfs.Cluster.Network.Converge.{held, CanTake, Serves, run_copies_lem}
use eggdfs.Cluster.Replicas.{copy_to}
use eggdfs.Common.Const.{success, storage_active}
use eggdfs.Common.Json.{Json}
use eggdfs.Conf.{GlobalConfig}
use eggdfs.Db.{LevelDb}
use eggdfs.Disk.{Faults, calm}
use eggdfs.Group.{StorageServer, Group, get_storage}
use eggdfs.Storage.{Storage, Answer, answer, slash}
use eggdfs.Storage.Download.Laws.{Stored-content}
use eggdfs.Storage.Upload.{UploadRequest, Uploaded}
use eggdfs.Storage.Upload.Outcomes.{Stored}
use eggdfs.Tracker.{IsSound, get_group}
use eggdfs.Tracker.Proxy.{relayed}
use eggdfs.Tracker.Sync.{sync_accepted}
use eggdfs.Tracker.Upload.{SyncTask, replicate_upload}
use eggdfs.Tracker.Upload.Replicas.{CopiesTo, replicate_upload_lem}
use eggdfs.Util.{gen_file_name}
use eggdfs.Util.FileNames.{gen_file_name-plain}

module _ (D : LevelDb) (J : Json) (web : Web) (reply : Option Answer → Text) (refused : Text)
    (md5 : Text → Text) (f : Faults) (c : GlobalConfig) (path : Text) (rq : UploadRequest)
    (s s' : Storage D.State) (u : Uploaded) (st : Stored D J md5 c f path rq s s' u) where
  abbrev pub leaf : Text
  leaf = gen_file_name rq.uuid st.form.filename

  -- The other registered servers of the group are active and stand at URLs of their own, each with room
  -- for the file, and each request for a copy survives JSON.
  pub record IsReady (k : Network D.State) (g : Group) (src : StorageServer) (group uuid : Text)
      : Type 0 where
    pub active :
        (server : StorageServer)
        → get_storage server.addr g ≡ some server
        → server.addr ≢ src.addr
        → server.status ≡ storage_active
    pub apart :
        (server : StorageServer)
        → get_storage server.addr g ≡ some server
        → server.addr ≢ src.addr
        → url_of server ≢ url_of src
    pub can :
        (server : StorageServer)
        → get_storage server.addr g ≡ some server
        → server.addr ≢ src.addr
        → CanTake D J web reply refused path leaf st.form.content src group uuid u.headers.file_hash
            k.nodes server

  served :
      content_of (lookup (slash c.storage.storage_dir u.headers.file_path) s'.disk)
      ≡ some st.form.content
  unfolding content_of
  served = ap content_of (Stored-content D J md5 c f path rq s s' u st)

  source :
      (k : Network D.State) (src : StorageServer) (group uuid : Text)
      → lookup (url_of src) k.nodes ≡ some (record { config = c; storage = s' })
      → c.storage.group ≡ group
      → web.asked (slash (url_of src) (slash group (slash path leaf)))
        ≡ some (url_of src, slash group (slash path leaf))
      → Serves D J web reply refused path leaf st.form.content src group uuid u.headers.file_hash
          k.nodes
  unfolding static_file
  source k src group uuid at within reads = record {
    node = record { config = c; storage = s' };
    at = at;
    reads = reads;
    within = within;
    holds =
        ap (λ p. content_of (lookup (slash c.storage.storage_dir p) s'.disk)) (sym st.named)
        ∙ served;
  }

  source_held :
      (src : StorageServer) (group uuid : Text) (nodes : Dict (Node D.State))
      → Serves D J web reply refused path leaf st.form.content src group uuid u.headers.file_hash
          nodes
      → held (slash path leaf) nodes (url_of src) ≡ some st.form.content
  unfolding held
  source_held src group uuid nodes serves = rw (held, serves.at) serves.holds

  -- After a storage has stored an upload that is not empty, under an identifier without a slash, let the
  -- goroutines run that a sound tracker starts for it, one after the other in any order. If the source
  -- stands at its URL in its group, the other registered servers are active and stand at other URLs
  -- with room for the file, the URL of the file, which is not escaped, is read as it is written, the
  -- requests survive JSON, the systems refuse nothing, and a success reads as one, then in the end
  -- every registered server of the group serves the content under the path of the upload, and the
  -- tracker, with its log, is as it was.
  pub upload_converges :
      (v : Visit StorageServer) (k : Network D.State) (sound : IsSound k.tracker) (g : Group)
      (src : StorageServer) (group uuid : Text)
      → get_group group k.tracker ≡ some g
      → get_storage src.addr g ≡ some src
      → has_byte b'/' rq.uuid ≡ false
      → length st.form.content ≢ 0
      → lookup (url_of src) k.nodes ≡ some (record { config = c; storage = s' })
      → c.storage.group ≡ group
      → web.asked (slash (url_of src) (slash group (slash path leaf)))
        ≡ some (url_of src, slash group (slash path leaf))
      → (ready : IsReady k g src group uuid)
      → sync_accepted J (ok (reply (some (answer success [])))) ≡ true
      → (tasks ran : List SyncTask)
      → replicate_upload v src group uuid (relayed u.headers) k.tracker ≡ done tasks
      → Perm ran tasks
      → (nodes : Dict (Node D.State)) × (run_copies D J web reply refused calm ran k
          ≡ done (record k { nodes = nodes }))
        × ((server : StorageServer)
            → get_storage server.addr g ≡ some server
            → held (slash path leaf) nodes (url_of server) ≡ some st.form.content)
  unfolding slash
  upload_converges v k sound g src group uuid at reg clean full stands within reads ready accepted
        tasks ran run order =
      let (tasks', run', copies') =
        replicate_upload_lem v k.tracker sound g src group uuid u.headers path leaf at st.headed
          st.named (gen_file_name-plain rq.uuid st.form.filename clean) in
      let copies : CopiesTo g src (copy_to D J md5 f c path rq s s' u st src group uuid) tasks =
        subst (CopiesTo g src (copy_to D J md5 f c path rq s s' u st src group uuid))
          (done-injective tasks' tasks (sym run' ∙ run)) copies' in
      let about = λ (task : SyncTask) (m : Mem task ran).
        copies.sound task.0 task.1 ((Perm.mem_iff order).0 m) in
      let (nodes, runs, serves, keeps, reaches) =
        run_copies_lem D J web reply refused path leaf st.form.content src group uuid
          u.headers.file_hash full ran k accepted
          (λ task m. record {
            info = (about task m).2;
            active = ready.active task.0 (about task m).0 (about task m).1;
            apart = ready.apart task.0 (about task m).0 (about task m).1;
          })
          (source k src group uuid stands within reads)
          (λ task m. ready.can task.0 (about task m).0 (about task m).1) in
      (
        nodes,
        runs,
        λ server here. elim (Bool-cases (text_eq server.addr src.addr)) [
          | inl same ↦
              let q : server ≡ src =
                some-injective server src
                  (sym here ∙ ap (λ a. get_storage a g) ((text_eq_iff _ _).0 same) ∙ reg) in
              ap (λ z. held (slash path leaf) nodes (url_of z)) q
              ∙ source_held src group uuid nodes serves
          | inr differ ↦
              let other : server.addr ≢ src.addr =
                λ e. cc (differ, (text_eq_iff server.addr src.addr).1 e) in
              reaches _ ((Perm.mem_iff order).1 (copies.complete server here other))
        ],
      )
