-- ===== src/Storage/Sync.antt =====
-- `Sync`, `SyncFileAdd` and `SyncFileDelete` of svc/storage.go.
pub mod Delete
pub mod Removes
pub mod Add
use mathlib.Core.Bool.{◌||◌, not}
use eggdfs.Base.{
  ℕ, Bool, true, false, Option, none, some, List, [], ◌∷◌, ◌++◌, Outcome, done, panic, ◌>>=◌, ◌==◌,
  if◌then◌else◌, length,
}
use eggdfs.Base.Text.{Text, bytes, text_eq}
use eggdfs.Common.Const.{success, fail, dir_create_fail, file_save_fail, sync_add, sync_delete}
use eggdfs.Common.Json.{Json}
use eggdfs.Common.Model.{FileInfo, SyncFileInfo}
use eggdfs.Conf.{GlobalConfig}
use eggdfs.Db
use eggdfs.Db.{LevelDb, put_quietly}
use eggdfs.Disk.{Disk, Faults, stat, create, copied, copy_into, remove_path}
use eggdfs.Storage.{Storage, Answer, answer, Task, trans_error_log, slash, gen_file_static_url}
use eggdfs.Storage.Upload.{ensure_dir}
use eggdfs.Util.{path_base}

-- What `http.Get` returns: the status of the response, which nothing reads, and its body.
pub record Response : Type 0 where
  pub status : ℕ
  pub body : Text

-- The URL that `SyncFileAdd` asks.
unfoldable pub source_url : SyncFileInfo → Text
unfolding slash
source_url sync = slash sync.src (slash sync.group (slash sync.file_path sync.file_name))

-- An answer, or none where the handler wrote nothing, and the goroutines.
abbrev pub Synced : Type 0
Synced = Option Answer × List Task

module _ (D : LevelDb) (J : Json) (c : GlobalConfig) where
  -- The record of the copy. `os.Stat` gave the name and the size.
  unfoldable pub copy_info : SyncFileInfo → Text → Text → Storage D.State → FileInfo
  unfolding gen_file_static_url path_base
  copy_info sync full_path content s = record {
    file_id = sync.file_id;
    name = path_base full_path;
    rename = path_base full_path;
    url = gen_file_static_url c s sync.file_path sync.file_name;
    size = length content;
    path = sync.file_path;
    md5 = sync.file_hash;
    group = sync.group;
  }

  -- After the copy: the record. If `os.Stat` fails, `info` is nil.
  unfoldable pub record_copy :
      Faults → SyncFileInfo → Text → Text → Storage D.State → Outcome (Synced × Storage D.State)
  unfolding stat copy_info put_quietly
  record_copy f sync full_path content s =
      if stat f full_path s.disk
      then done (
        (some (answer success []), []),
        record s {
          db =
              put_quietly D s.db sync.file_hash
                (J.marshal_file (copy_info sync full_path content s));
        },
      )
      else panic

  -- From `io.Copy` on. A copy of no bytes counts as a failure.
  unfoldable pub write_copy :
      Faults → SyncFileInfo → Text → Text → Storage D.State → Outcome (Synced × Storage D.State)
  unfolding copied copy_into record_copy
  write_copy f sync full_path body s =
      let (d, whole) = copy_into f full_path body s.disk in
      if not whole || length (copied f body) == 0
      then done (
        (
          some (answer fail []),
          trans_error_log file_save_fail (bytes "文件同步保存失败" ++ full_path) ∷ [],
        ),
        record s { disk = d },
      )
      else record_copy f sync full_path (copied f body) (record s { disk = d })

  -- `got` is what `http.Get` of `source_url` returns, or none for an error.
  unfoldable pub fetch_copy :
      Faults
      → SyncFileInfo
      → Text
      → Option Response
      → Storage D.State
      → Outcome (Synced × Storage D.State)
  unfolding create write_copy slash
  fetch_copy f sync base none s = done ((some (answer fail []), []), s)
  fetch_copy f sync base (some resp) s = elim (create f (slash base sync.file_name) s.disk) [
    | none ↦ done (
      (
        some (answer dir_create_fail []),
        trans_error_log dir_create_fail (bytes "文件保存路径创建失败" ++ slash base sync.file_name) ∷ [],
      ),
      s,
    )
    | some d ↦ write_copy f sync (slash base sync.file_name) resp.body (record s { disk = d })
  ]

  unfoldable pub sync_file_add :
      Faults → SyncFileInfo → Option Response → Storage D.State → Outcome (Synced × Storage D.State)
  unfolding ensure_dir fetch_copy slash
  sync_file_add f sync got s =
      let base = slash c.storage.storage_dir sync.file_path in
      let (d, made) = ensure_dir f base s.disk in
      if made
      then fetch_copy f sync base got (record s { disk = d })
      else done (
        (
          some (answer dir_create_fail []),
          trans_error_log dir_create_fail (bytes "文件保存路径创建失败" ++ base) ∷ [],
        ),
        record s { disk = d },
      )

  unfoldable pub sync_file_delete :
      Faults → SyncFileInfo → Storage D.State → Answer × Storage D.State
  unfolding stat remove_path slash
  sync_file_delete f sync s =
      let full_path = slash c.storage.storage_dir (slash sync.file_path sync.file_name) in
      if stat f full_path s.disk
      then elim (remove_path f full_path s.disk) [
        | none ↦ (answer fail [], s)
        | some d ↦ (
          answer success [],
          record s {
            disk = d;
            db =
                if text_eq sync.file_hash []
                then s.db
                else (Db.delete D s.db (sync.file_hash ∷ [])).0;
          },
        )
      ]
      else (answer success [], s)

  -- An action of another name is not answered.
  unfoldable pub sync :
      Faults → SyncFileInfo → Option Response → Storage D.State → Outcome (Synced × Storage D.State)
  unfolding sync_file_add sync_file_delete
  sync f info got s =
      if text_eq info.action sync_delete
      then (let (a, s') = sync_file_delete f info s in done ((some a, []), s'))
      else if text_eq info.action sync_add
      then sync_file_add f info got s
      else done ((none, []), s)
