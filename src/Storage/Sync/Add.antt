-- ===== src/Storage/Sync/Add.antt =====
-- A copy that a storage makes.
use eggdfs.Base.{
  ◌≡◌, ◌≢◌, refl, ap, ◌∙◌, true, false, some, [], ◌∷◌, ◌++◌, done, ◌==◌, ==_iff, arith, length,
}
use eggdfs.Base.Dict.{lookup, insert, lookup-insert_self}
use eggdfs.Base.Text.{Text, bytes}
use eggdfs.Common.Const.{success, fail, file_save_fail}
use eggdfs.Common.Json.{Json}
use eggdfs.Common.Model.{SyncFileInfo}
use eggdfs.Conf.{GlobalConfig}
use eggdfs.Db.{LevelDb, put_quietly}
use eggdfs.Disk.{Disk, file, calm, stat, copy_into, copied}
use eggdfs.Disk.Files.{GrowsBut, GrowsBut-of, SameBut-trans, insert-SameBut}
use eggdfs.Storage.{Storage, answer, trans_error_log, slash}
use eggdfs.Storage.Place.{HasRoom, HasRoom-create}
use eggdfs.Storage.Sync.{Response, copy_info, record_copy, write_copy, fetch_copy, sync_file_add}
use eggdfs.Storage.Upload.{ensure_dir}
use eggdfs.Storage.Upload.Outcomes.{ensure_dir-Grows}

module _ (D : LevelDb) (J : Json) (c : GlobalConfig) (info : SyncFileInfo) (resp : Response)
    (s : Storage D.State) where
  abbrev base : Text
  base = slash c.storage.storage_dir info.file_path

  abbrev target : Text
  target = slash base info.file_name

  -- The disk once the file is created and filled.
  abbrev filled : Disk
  filled = insert target (file resp.body) (insert target (file []) (ensure_dir calm base s.disk).0)

  add_run :
      HasRoom base info.file_name s.disk
      → sync_file_add D J c calm info (some resp) s
        ≡ write_copy D J c calm info target resp.body
            (record s { disk = insert target (file []) (ensure_dir calm base s.disk).0 })
  unfolding sync_file_add fetch_copy
  add_run room =
      let (made, created) = HasRoom-create base info.file_name s.disk room in
      rw (sync_file_add, made, fetch_copy, created)

  filled-GrowsBut : GrowsBut target s.disk filled
  filled-GrowsBut =
      GrowsBut-of target s.disk (ensure_dir calm base s.disk).0 filled
        (ensure_dir-Grows calm base s.disk)
        (SameBut-trans target _ (insert target (file []) (ensure_dir calm base s.disk).0) filled
          (insert-SameBut target (file []) _) (insert-SameBut target (file resp.body) _))

  write_filled :
      length resp.body ≢ 0
      → write_copy D J c calm info target resp.body
          (record s { disk = insert target (file []) (ensure_dir calm base s.disk).0 })
        ≡ done (
          (some (answer success []), []),
          record s {
            disk = filled;
            db = put_quietly D s.db info.file_hash (
                J.marshal_file
                  (copy_info D J c info target resp.body (record s { disk = filled })));
          },
        )
  unfolding write_copy copy_into copied record_copy stat
  write_filled full =
      let some_bytes : (length resp.body == 0) ≡ false = ground arith in
      rw (
        some_bytes,
        lookup-insert_self target (file resp.body)
            (insert target (file []) (ensure_dir calm base s.disk).0),
      )

  -- A copy for which there is room on the disk, where the system refuses nothing and the source sends
  -- a body that is not empty, is answered with success. The body stands under the path of the copy and
  -- its record under the digest that was announced, and nothing else on the disk changes but for new
  -- directories: whatever the status of the response is, and whatever the digest of the body is.
  pub sync_file_add_lem :
      HasRoom base info.file_name s.disk
      → length resp.body ≢ 0
      → (s' : Storage D.State) × (sync_file_add D J c calm info (some resp) s
          ≡ done ((some (answer success []), []), s'))
        × (lookup target s'.disk ≡ some (file resp.body))
        × GrowsBut target s.disk s'.disk
        × (s'.db
            ≡ put_quietly D s.db info.file_hash
                (J.marshal_file (copy_info D J c info target resp.body s)))
  unfolding copy_info
  sync_file_add_lem room full = (
    _,
    add_run room ∙ write_filled full,
    lookup-insert_self target (file resp.body)
        (insert target (file []) (ensure_dir calm base s.disk).0),
    filled-GrowsBut,
    refl,
  )

  -- An empty file is never copied: although the system refuses nothing, the storage answers with a
  -- failure and reports it to the trackers.
  pub sync_file_add_empty :
      HasRoom base info.file_name s.disk
      → resp.body ≡ []
      → (s' : Storage D.State) × (sync_file_add D J c calm info (some resp) s
          ≡ done (
            (
              some (answer fail []),
              trans_error_log file_save_fail (bytes "文件同步保存失败" ++ target) ∷ [],
            ),
            s',
          ))
        × (s'.db ≡ s.db)
  unfolding write_copy copy_into copied
  sync_file_add_empty room empty =
      let none_left : (length resp.body == 0) ≡ true = (==_iff _ _).1 (ap length empty) in
      (record s { disk = filled }, add_run room ∙ rw (write_copy, none_left), refl)
