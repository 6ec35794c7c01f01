-- ===== src/Storage/Effects.antt =====
-- What the handlers of svc/storage.go do to the disk: each is a few calls in turn, and a property of
-- disks that these calls keep holds after the handler.
pub mod Uploads
pub mod Syncs
use eggdfs.Base.{
  ◌≡◌, refl, sym, ap, ◌∙◌, subst, inl, inr, true, false, Option, none, some, List, [], ◌∷◌, done,
  ok, err, Bool-cases, Option-cases, Result-cases, panic-ne-done, done-injective, ◌==◌, length, not,
  ◌||◌, Outcome,
}
use eggdfs.Base.Dict.{lookup, insert}
use eggdfs.Base.Text.{Text, text_eq}
use eggdfs.Common.Const.{sync_add, sync_delete}
use eggdfs.Common.Json.{Json}
use eggdfs.Common.Model.{SyncFileInfo}
use eggdfs.Conf.{GlobalConfig}
use eggdfs.Db.{LevelDb}
use eggdfs.Disk.{Disk, Faults, stat, create, copied, copy_into, remove_path, file}
use eggdfs.Disk.Files.{create_lem}
use eggdfs.Storage.{Storage, slash}
use eggdfs.Storage.Sync.{
  Response, Synced, record_copy, write_copy, fetch_copy, sync_file_add, sync_file_delete, sync,
}
use eggdfs.Storage.Upload.{
  FormFile, UploadRequest, save_quick_uploaded_file, save_content, exceeds, ensure_dir, find_hash,
  finish, save_form, store, quick_upload,
}
use eggdfs.Util.{Date, gen_file_path, gen_file_name}

-- A property of disks that directories and the writes to one path keep.
pub record Closed (q : Text) (P : Disk → Type 0) : Type 0 where
  pub made : (f : Faults) (base : Text) (d : Disk) → P d → P (ensure_dir f base d).0
  pub written : (x : Text) (d : Disk) → P d → P (insert q (file x) d)
  pub removed : (f : Faults) (d d' : Disk) → remove_path f q d ≡ some d' → P d → P d'

module _ (q : Text) (P : Disk → Type 0) (closed : Closed q P) where
  pub created_keeps : (f : Faults) (d d' : Disk) → create f q d ≡ some d' → P d → P d'
  created_keeps f d d' e h = subst P (sym (create_lem f q d d' e)) (closed.written [] d h)

  save_content_keeps :
      (md5 : Text → Text) (f : Faults) (content hash : Text) (d : Disk)
      → P d
      → P (save_content md5 f content q hash d).0
  unfolding save_content copy_into
  save_content_keeps md5 f content hash d h = elim (Option-cases f.cut) [
    | inr (n, cut) ↦ rw (save_content, copy_into, cut) (closed.written _ d h)
    | inl whole ↦ elim (Bool-cases f.no_reopen) [
      | inl refused ↦ rw (save_content, copy_into, whole, refused) (closed.written _ d h)
      | inr opens ↦ rw (save_content, copy_into, whole, opens) (closed.written _ d h)
    ]
  ]

  pub save_keeps :
      (md5 : Text → Text) (f : Faults) (form : FormFile) (hash : Text) (d : Disk)
      → P d
      → P (save_quick_uploaded_file md5 f form q hash d).0
  unfolding save_quick_uploaded_file
  save_keeps md5 f form hash d h = elim (Bool-cases f.no_open) [
    | inl refused ↦ rw (save_quick_uploaded_file, refused) h
    | inr opens ↦ elim (Option-cases (create f q d)) [
      | inl refused ↦ rw (save_quick_uploaded_file, opens, refused) h
      | inr (d', made) ↦
          rw (save_quick_uploaded_file, opens, made)
            (save_content_keeps md5 f form.content hash d' (created_keeps f d d' made h))
    ]
  ]

-- Where the file of an upload goes, and where that of a copy or a deletion stands.
unfoldable pub upload_path : GlobalConfig → Date → UploadRequest → FormFile → Text
unfolding slash gen_file_path gen_file_name
upload_path c today rq form =
    slash (slash c.storage.storage_dir (gen_file_path today rq.custom_dir))
      (gen_file_name rq.uuid form.filename)

unfoldable pub sync_path : GlobalConfig → SyncFileInfo → Text
unfolding slash
sync_path c info = slash (slash c.storage.storage_dir info.file_path) info.file_name
