-- ===== src/Storage/Sync/Removes.antt =====
-- A deletion at a storage where the system refuses nothing.
use eggdfs.Base.{
  ◌≡◌, ◌≢◌, refl, ap, ◌∙◌, inl, inr, true, false, Option, none, some, [], done, ok, arith,
  Option-cases,
}
use eggdfs.Base.Dict.{lookup, NodupKeys, remove}
use eggdfs.Base.Text.{Text, text_eq, text_eq_iff, text_eq_refl}
use eggdfs.Common.Const.{success, sync_delete}
use eggdfs.Common.Json.{Json}
use eggdfs.Common.Model.{SyncFileInfo}
use eggdfs.Conf.{GlobalConfig}
use eggdfs.Db
use eggdfs.Db.{LevelDb, IsLawful, is_exist_key}
use eggdfs.Disk.{file, dir, calm, stat, remove_path}
use eggdfs.Disk.Files.{SameBut}
use eggdfs.Storage.{Storage, answer}
use eggdfs.Storage.Sync.{Response, sync_file_delete, sync}
use eggdfs.Storage.Sync.Delete.{full_path, sync_file_delete_lem}
use eggdfs.Storage.Upload.{find_hash}

module _ (D : LevelDb) (J : Json) (c : GlobalConfig) (info : SyncFileInfo)
    (s : Storage D.State) where
  abbrev target : Text
  target = full_path D J c calm info s

  remove_file :
      (x : Text)
      → lookup target s.disk ≡ some (file x)
      → remove_path calm target s.disk ≡ some (remove target s.disk)
  unfolding remove_path
  remove_file x at = rw (remove_path, at)

  present : (x : Text) → lookup target s.disk ≡ some (file x) → stat calm target s.disk ≡ true
  unfolding stat
  present x at = rw (stat, at)

  absent : lookup target s.disk ≡ none → stat calm target s.disk ≡ false
  unfolding stat
  absent at = rw (stat, at)

  delete_succeeds :
      lookup target s.disk ≢ some dir → (sync_file_delete D J c calm info s).0 ≡ answer success []
  unfolding sync_file_delete
  delete_succeeds n = elim (Option-cases (lookup target s.disk)) [
    | inl gone ↦ rw (sync_file_delete, absent gone)
    | inr (file x, at) ↦ rw (sync_file_delete, present x at, remove_file x at)
    | inr (dir, at) ↦ absurd (n at)
  ]

  pub sync_delete_run :
      info.action ≡ sync_delete
      → (got : Option Response) → lookup target s.disk ≢ some dir
      → sync D J c calm info got s
        ≡ done ((some (answer success []), []), (sync_file_delete D J c calm info s).1)
  unfolding sync
  sync_delete_run act got n =
      let is_delete : text_eq info.action sync_delete ≡ true = (text_eq_iff _ _).1 act in
      rw (sync, is_delete, delete_succeeds n)

  pub delete_gone :
      NodupKeys s.disk
      → lookup target s.disk ≢ some dir
      → (lookup target (sync_file_delete D J c calm info s).1.disk ≡ none)
        × SameBut target s.disk (sync_file_delete D J c calm info s).1.disk
  delete_gone once n =
      let (gone, same, db) =
        sync_file_delete_lem D J c calm info s once refl (ap (λ z. z.status) (delete_succeeds n)) in
      (gone, same)

  delete_db :
      text_eq info.file_hash [] ≡ false
      → stat calm target s.disk ≡ true
      → remove_path calm target s.disk ≡ some (remove target s.disk)
      → (d : D.State) → D.delete s.db info.file_hash ≡ ok d
      → (sync_file_delete D J c calm info s).1.db ≡ d
  unfolding sync_file_delete Db.delete
  delete_db named there gone d deleted =
      rw (sync_file_delete, there, gone, named, Db.delete, deleted)

  -- A deletion that names a digest, of a file that is there, where the system refuses nothing and a
  -- lawful database performs its part: afterwards the digest is not found, so that an upload with it is
  -- not answered from a record.
  pub delete_forgets :
      (law : IsLawful D) (md5 : Text → Text) (x : Text) (d : D.State)
      → NodupKeys s.disk
      → lookup target s.disk ≡ some (file x)
      → info.file_hash ≢ []
      → D.delete s.db info.file_hash ≡ ok d
      → find_hash D J md5 c info.file_hash (sync_file_delete D J c calm info s).1.db ≡ none
  unfolding find_hash is_exist_key
  delete_forgets law md5 x d once at given deleted =
      let hash = info.file_hash in
      let unknown : D.has d hash ≡ ok false =
        law.has-delete s.db d hash hash deleted ∙ rw (text_eq_refl hash) in
      let named : text_eq hash [] ≡ false = ground (arith, text_eq_iff hash []) in
      let left : (sync_file_delete D J c calm info s).1.db ≡ d =
        delete_db named (present x at) (remove_file x at) d deleted in
      ap (find_hash D J md5 c hash) left ∙ rw (find_hash, named, unknown)
