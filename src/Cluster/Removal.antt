-- ===== src/Cluster/Removal.antt =====
-- A deletion reaches every storage of the group.
use mathlib.Core.List.{Mem}
use eggdfs.Base.{
  ◌≡◌, ◌≢◌, ◌↔◌, refl, sym, ap, ◌∙◌, subst, true, false, ◌&&◌, not, none, some, Option, [], ◌∷◌,
  done, Result, ◌==◌, if◌then◌else◌, arith,
}
use eggdfs.Base.Dict.{lookup, NodupKeys}
use eggdfs.Base.Text.{Text, bytes, text_eq, text_eq_iff, has_byte}
use eggdfs.Base.Visit.{Visit}
use eggdfs.Common.Const.{success, fail, sync_delete, storage_offline}
use eggdfs.Common.Json.{Json}
use eggdfs.Common.Model.{SyncFileInfo}
use eggdfs.Conf.{GlobalConfig}
use eggdfs.Db.{LevelDb}
use eggdfs.Disk.{dir, Faults, calm, stat}
use eggdfs.Disk.Files.{SameBut}
use eggdfs.Group.{StorageServer, Group, get_storage, get_storages}
use eggdfs.Group.Storages.{get_storages_complete}
use eggdfs.Storage.{Storage, answer, slash}
use eggdfs.Storage.Download.{denied, download}
use eggdfs.Storage.Download.Laws.{slash-ne-nil}
use eggdfs.Storage.Sync.{Response, sync, sync_file_delete}
use eggdfs.Storage.Sync.Removes.{sync_delete_run, delete_gone}
use eggdfs.Storage.Upload.{UploadRequest, Uploaded}
use eggdfs.Storage.Upload.Outcomes.{Stored}
use eggdfs.Tracker.{Tracker, IsSound, get_group}
use eggdfs.Tracker.Delete.{Started, delete}
use eggdfs.Tracker.Delete.Tasks.{delete_run}
use eggdfs.Tracker.Query.Laws.{group-IsWell}
use eggdfs.Tracker.Sync.{DeleteFile, delete_accepted, delete_info, delete_task, log_failure}
use eggdfs.Util.{gen_file_name}
use eggdfs.Util.FileNames.{gen_file_name-plain}
use eggdfs.Util.Paths.{parse_header_file_path_iff}

download_missing :
    {S : Type 0} (c : GlobalConfig) (path name : Text) (s : Storage S)
    → path ≢ []
    → lookup (slash c.storage.storage_dir path) s.disk ≡ none
    → download c calm path name s ≡ denied (answer fail (bytes "no such file"))
unfolding download stat
download_missing c path name s n gone =
    let given : text_eq path [] ≡ false = ground (arith, text_eq_iff path []) in
    rw (download, given, stat, gone)

module _ (D : LevelDb) (J : Json) where
  -- The goroutine for one storage posts `info` and logs it where the deletion was not made.
  pub delete_task_run :
      (server : StorageServer) (group base name : Text) (file : DeleteFile) (got : Result Text Text)
      (t : Tracker D.State)
      → file.file ≡ slash base name
      → has_byte b'/' name ≡ false
      → delete_task D J server group file got t
        ≡ done (
            if not (server.status == storage_offline) && delete_accepted J got
            then t
            else log_failure D J sync_delete (delete_info D J server group file base name) t)
  unfolding delete_task slash
  delete_task_run server group base name file got t path clean =
      rw (delete_task, (parse_header_file_path_iff file.file base name).1 (path, clean))
        (ground arith)

  module _ (md5 : Text → Text) (f : Faults) (c : GlobalConfig) (path : Text) (rq : UploadRequest)
      (s s' : Storage D.State) (u : Uploaded) (st : Stored D J md5 c f path rq s s' u) where
    -- The request to one storage.
    abbrev pub asked : StorageServer → Group → DeleteFile → SyncFileInfo
    asked server g file =
        delete_info D J server g.name file path (gen_file_name rq.uuid st.form.filename)

    -- After an upload stored a file under an identifier without a slash, a deletion of the path that
    -- its headers named, in a registered group of a sound tracker, starts one goroutine for each
    -- registered storage and no other. The request to such a storage, where the system refuses nothing,
    -- no path stands twice and no directory stands in the place of the file, is answered with success;
    -- then a download of that path finds no such file there, and every other path is as it was. The
    -- goroutine leaves the tracker's log as it is, if the answer reads as a success and the server is
    -- not offline, and else logs that very request.
    pub deletion_reaches_replicas :
        (v : Visit StorageServer) (t : Tracker D.State) (sound : IsSound t) (g : Group)
        (file : DeleteFile)
        → get_group file.group t ≡ some g
        → file.file ≡ u.headers.file_path
        → has_byte b'/' rq.uuid ≡ false
        → (server : StorageServer) → get_storage server.addr g ≡ some server
        → (c' : GlobalConfig) (b : Storage D.State) (got : Option Response) (name : Text)
        → NodupKeys b.disk
        → lookup (slash c'.storage.storage_dir file.file) b.disk ≢ some dir
        → (reply : Result Text Text) (w : Tracker D.State)
        → (started : Started) × (delete v true file t ≡ done (success ∷ [], started))
          × Mem (some server) started
          × ((other : StorageServer)
              → Mem (some other) started ↔ (get_storage other.addr g ≡ some other))
          × (b' : Storage D.State) × (sync D J c' calm (asked server g file) got b
              ≡ done ((some (answer success []), []), b'))
          × (download c' calm file.file name b' ≡ denied (answer fail (bytes "no such file")))
          × SameBut (slash c'.storage.storage_dir file.file) b.disk b'.disk
          × (delete_task D J server g.name file reply w
              ≡ done (
                  if not (server.status == storage_offline) && delete_accepted J reply
                  then w
                  else log_failure D J sync_delete (asked server g file) w))
    unfolding delete_info
    deletion_reaches_replicas v t sound g file at same clean server reg c' b got name once free
          reply w =
        let leaf = gen_file_name rq.uuid st.form.filename in
        let info = asked server g file in
        let whole : file.file ≡ slash path leaf = same ∙ st.named in
        let spot = ap (slash c'.storage.storage_dir) whole in
        let free' = subst (λ p. lookup p b.disk ≢ some dir) spot free in
        let (no_nil, listed) = get_storages_complete v g (group-IsWell t sound file.group g at) in
        let (gone, others) = delete_gone D J c' info b once free' in
        let b' = (sync_file_delete D J c' calm info b).1 in
        (
          get_storages v g,
          delete_run D J v true file t g at,
          (listed server).1 reg,
          listed,
          b',
          sync_delete_run D J c' info b refl got free',
          download_missing c' file.file name b' (λ e. slash-ne-nil path leaf (sym whole ∙ e))
              (ap (λ p. lookup p b'.disk) spot ∙ gone),
          subst (λ p. SameBut p b.disk b'.disk) (sym spot) others,
          delete_task_run server g.name path leaf file reply w whole
              (gen_file_name-plain rq.uuid st.form.filename clean),
        )
