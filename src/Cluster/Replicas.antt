-- ===== src/Cluster/Replicas.antt =====
-- An upload reaches the other storages of the group.
use mathlib.Core.List.{Mem}
use mathlib.Core.Option.{some-injective}
use eggdfs.Base.{ℕ, ◌≡◌, ◌≢◌, refl, sym, ap, ◌∙◌, true, false, Option, some, List, [], done, length}
use eggdfs.Base.Dict.{lookup}
use eggdfs.Base.Text.{Text, bytes, text_eq, text_eq_refl, has_byte}
use eggdfs.Base.Visit.{Visit}
use eggdfs.Cluster.{content_of, static_file}
use eggdfs.Common.Const.{success, sync_add, sync_delete}
use eggdfs.Common.Json.{Json}
use eggdfs.Common.Model.{SyncFileInfo}
use eggdfs.Conf.{GlobalConfig}
use eggdfs.Db.{LevelDb}
use eggdfs.Disk.{Faults, calm}
use eggdfs.Group.{StorageServer, Group, get_storage}
use eggdfs.Storage.{Storage, answer, slash}
use eggdfs.Storage.Download.Laws.{slash_assoc, Stored-content}
use eggdfs.Storage.Place.{HasRoom}
use eggdfs.Storage.Sync.{Response, sync_file_add, sync}
use eggdfs.Storage.Sync.Add.{sync_file_add_lem}
use eggdfs.Storage.Upload.{UploadRequest, Uploaded}
use eggdfs.Storage.Upload.Outcomes.{Stored}
use eggdfs.Tracker.{Tracker, IsSound, get_group}
use eggdfs.Tracker.Proxy.{relayed}
use eggdfs.Tracker.Upload.{SyncTask, sync_info, replicate_upload}
use eggdfs.Tracker.Upload.Replicas.{CopiesTo, replicate_upload_lem}
use eggdfs.Util.{gen_file_name}
use eggdfs.Util.FileNames.{gen_file_name-plain}

add-ne-delete : text_eq sync_add sync_delete ≡ false
unfolding text_eq sync_add sync_delete bytes
add-ne-delete = refl

pub sync_add_run :
    (D : LevelDb) (J : Json) (c : GlobalConfig) (f : Faults) (info : SyncFileInfo)
    (got : Option Response) (s : Storage D.State)
    → info.action ≡ sync_add
    → sync D J c f info got s ≡ sync_file_add D J c f info got s
unfolding sync
sync_add_run D J c f info got s e =
    let differs : text_eq info.action sync_delete ≡ false =
      ap (λ a. text_eq a sync_delete) e ∙ add-ne-delete in
    let same : text_eq info.action sync_add ≡ true =
      ap (λ a. text_eq a sync_add) e ∙ text_eq_refl sync_add in
    rw (differs, same)

module _ (D : LevelDb) (J : Json) (md5 : Text → Text) (f : Faults) (c : GlobalConfig) (path : Text)
    (rq : UploadRequest) (s s' : Storage D.State) (u : Uploaded)
    (st : Stored D J md5 c f path rq s s' u) where
  served :
      (body : Text)
      → static_file c s' (slash path (gen_file_name rq.uuid st.form.filename)) ≡ some body
      → body ≡ st.form.content
  unfolding static_file
  served body e = some-injective _ _ (
      sym e
      ∙ ap (λ p. content_of (lookup (slash c.storage.storage_dir p) s'.disk)) (sym st.named)
      ∙ ap content_of (Stored-content D J md5 c f path rq s s' u st))

  -- One goroutine of the tracker, and the storage `b` that it asks, with its own configuration.
  abbrev pub Copied : GlobalConfig → Storage D.State → SyncFileInfo → Response → Type 0
  Copied c' b info resp =
      (b' : Storage D.State) × (sync D J c' calm info (some resp) b
        ≡ done ((some (answer success []), []), b'))
      × (static_file c' b' (slash path (gen_file_name rq.uuid st.form.filename))
          ≡ some st.form.content)

  -- The request for the copy to one storage.
  abbrev pub copy_to : StorageServer → Text → Text → StorageServer → SyncFileInfo
  copy_to src group uuid server =
      sync_info src server group uuid path (gen_file_name rq.uuid st.form.filename)
        u.headers.file_hash

  copy_made :
      (src server : StorageServer) (group uuid hash : Text) (c' : GlobalConfig)
      (b : Storage D.State) (resp : Response)
      → static_file c s' (slash path (gen_file_name rq.uuid st.form.filename)) ≡ some resp.body
      → HasRoom (slash c'.storage.storage_dir path) (gen_file_name rq.uuid st.form.filename) b.disk
      → length st.form.content ≢ 0
      → Copied c' b
          (sync_info src server group uuid path (gen_file_name rq.uuid st.form.filename) hash)
          resp
  unfolding sync_info static_file
  copy_made src server group uuid hash c' b resp serves room full =
      let name = gen_file_name rq.uuid st.form.filename in
      let info = sync_info src server group uuid path name hash in
      let same = served resp.body serves in
      let (b', run, there, others, db) =
        sync_file_add_lem D J c' info resp b room
          (λ e. full (ap (length {A = ℕ}) (sym same) ∙ e)) in
      (
        b',
        sync_add_run D J c' calm info (some resp) b refl ∙ run,
        ap (λ p. content_of (lookup p b'.disk)) (sym (slash_assoc c'.storage.storage_dir path name))
            ∙ ap content_of there
            ∙ ap some same,
      )

  -- After a storage has stored an upload that is not empty, under an identifier without a slash, a
  -- sound tracker that relays its headers starts one copy to each other registered storage of the
  -- group, and to no other. The copy to such a storage, where the disk has room for the file, the
  -- system refuses nothing and the source serves what it stored, is answered with success and leaves
  -- the same content under the same path.
  pub upload_reaches_replicas :
      {T : Type 0} (v : Visit StorageServer) (t : Tracker T) (sound : IsSound t) (g : Group)
      (src : StorageServer) (group uuid : Text)
      → get_group group t ≡ some g
      → has_byte b'/' rq.uuid ≡ false
      → length st.form.content ≢ 0
      → (server : StorageServer) → get_storage server.addr g ≡ some server
      → server.addr ≢ src.addr
      → (c' : GlobalConfig) (b : Storage D.State) (resp : Response)
      → static_file c s' (slash path (gen_file_name rq.uuid st.form.filename)) ≡ some resp.body
      → HasRoom (slash c'.storage.storage_dir path) (gen_file_name rq.uuid st.form.filename) b.disk
      → (tasks : List SyncTask) × (replicate_upload v src group uuid (relayed u.headers) t
          ≡ done tasks)
        × CopiesTo g src (copy_to src group uuid) tasks
        × Mem (server, copy_to src group uuid server) tasks
        × Copied c' b (copy_to src group uuid server) resp
  unfolding slash
  upload_reaches_replicas v t sound g src group uuid at clean full server reg other c' b resp serves
        room =
      let name = gen_file_name rq.uuid st.form.filename in
      let (tasks, run, copies) =
        replicate_upload_lem v t sound g src group uuid u.headers path name at st.headed st.named
          (gen_file_name-plain rq.uuid st.form.filename clean) in
      (
        tasks,
        run,
        copies,
        copies.complete server reg other,
        copy_made src server group uuid u.headers.file_hash c' b resp serves room full,
      )
