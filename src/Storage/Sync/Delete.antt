-- ===== src/Storage/Sync/Delete.antt =====
-- The deletion of a replica, and what it leaves behind.
use eggdfs.Base.{
  ◌≡◌, ◌≢◌, refl, sym, ap, ◌∙◌, inl, inr, Bool, true, false, none, some, [], ◌∷◌, if◌then◌else◌,
  arith, Bool-cases, Option-cases,
}
use eggdfs.Base.Dict.{lookup, NodupKeys}
use eggdfs.Base.Text.{Text, text_eq, text_eq_iff}
use eggdfs.Common.Const.{success, fail}
use eggdfs.Common.Json.{Json}
use eggdfs.Common.Model.{FileInfo, SyncFileInfo}
use eggdfs.Conf.{GlobalConfig}
use eggdfs.Db
use eggdfs.Db.{LevelDb}
use eggdfs.Disk.{Disk, Faults, stat, remove_path}
use eggdfs.Disk.Files.{SameBut, remove_path_lem}
use eggdfs.Storage.{Storage, slash}
use eggdfs.Storage.Sync.{sync_file_delete}
use eggdfs.Storage.Upload.{UploadRequest, find_hash, quick_upload}
use eggdfs.Storage.Upload.Cases.{Instant, known-Instant}
use eggdfs.Util.{Date}

fail-ne-success : fail ≢ success
fail-ne-success e = omega arith

module _ (D : LevelDb) (J : Json) (c : GlobalConfig) (f : Faults) (info : SyncFileInfo)
    (s : Storage D.State) where
  -- The path of the replica.
  abbrev pub full_path : Text
  full_path = slash c.storage.storage_dir (slash info.file_path info.file_name)

  -- What stands in the way of a deletion: the file is there and cannot be removed.
  delete_run :
      (d : Disk)
      → stat f full_path s.disk ≡ true
      → remove_path f full_path s.disk ≡ some d
      → (sync_file_delete D J c f info s).1 ≡ record s {
        disk = d;
        db = if text_eq info.file_hash [] then s.db else (Db.delete D s.db (info.file_hash ∷ [])).0;
      }
  unfolding sync_file_delete
  delete_run d there gone = rw (sync_file_delete, there, gone)

  delete_kept :
      stat f full_path s.disk ≡ true
      → remove_path f full_path s.disk ≡ none
      → ((sync_file_delete D J c f info s).0.status ≡ fail)
        × ((sync_file_delete D J c f info s).1 ≡ s)
  unfolding sync_file_delete
  delete_kept there kept = (rw (sync_file_delete, there, kept), rw (sync_file_delete, there, kept))

  delete_absent : stat f full_path s.disk ≡ false → (sync_file_delete D J c f info s).1 ≡ s
  unfolding sync_file_delete
  delete_absent missing = rw (sync_file_delete, missing)

  stat-false :
      f.no_stat full_path ≡ false → stat f full_path s.disk ≡ false → lookup full_path s.disk ≡ none
  unfolding stat
  stat-false look missing = elim (Option-cases (lookup full_path s.disk)) [
    | inl gone ↦ gone
    | inr (e, at) ↦ cc (rw (stat, look, at) at missing)
  ]

  -- A deletion that is answered with success, where the path may be looked up and no path stands twice
  -- on the disk, leaves no replica and every other path as it was. The record of the digest is deleted
  -- exactly if there was a replica and the request names a digest.
  pub sync_file_delete_lem :
      NodupKeys s.disk
      → f.no_stat full_path ≡ false
      → (sync_file_delete D J c f info s).0.status ≡ success
      → (lookup full_path (sync_file_delete D J c f info s).1.disk ≡ none)
        × SameBut full_path s.disk (sync_file_delete D J c f info s).1.disk
        × ((sync_file_delete D J c f info s).1.db ≡ (
            if stat f full_path s.disk
            then (if text_eq info.file_hash []
                then s.db
                else (Db.delete D s.db (info.file_hash ∷ [])).0)
            else s.db))
  sync_file_delete_lem u look h = elim (Bool-cases (stat f full_path s.disk)) [
    | inr missing ↦
        let e = delete_absent missing in
        (
          ap (λ (z : Storage D.State). lookup full_path z.disk) e ∙ stat-false look missing,
          (λ q differ. ap (λ (z : Storage D.State). lookup q z.disk) e),
          ap (λ (z : Storage D.State). z.db) e ∙ rw missing,
        )
    | inl there ↦ elim (Option-cases (remove_path f full_path s.disk)) [
      | inl kept ↦ absurd (fail-ne-success (sym (delete_kept there kept).0 ∙ h))
      | inr (d, gone) ↦
          let e = delete_run d there gone in
          let (empty, same) = remove_path_lem f full_path s.disk d u gone in
          (
            ap (λ (z : Storage D.State). lookup full_path z.disk) e ∙ empty,
            (λ q differ. ap (λ (z : Storage D.State). lookup q z.disk) e ∙ same q differ),
            ap (λ (z : Storage D.State). z.db) e ∙ rw there,
          )
    ]
  ]

  -- A deletion that names no digest, as a client may ask for, removes the file and keeps its record:
  -- from then on an upload with that digest is answered at once with success and the record, although
  -- nothing is stored.
  pub quick_upload_of_deleted :
      (md5 : Text → Text) (g : Faults) (p : Text) (today : Date) (rq : UploadRequest)
      (fi : FileInfo)
      → NodupKeys s.disk
      → f.no_stat full_path ≡ false
      → (sync_file_delete D J c f info s).0.status ≡ success
      → info.file_hash ≡ []
      → find_hash D J md5 c rq.file_hash s.db ≡ some fi
      → (lookup full_path (sync_file_delete D J c f info s).1.disk ≡ none)
        × Instant D J md5 c g p today rq
            (sync_file_delete D J c f info s).1
            (quick_upload D J md5 c g p today rq (sync_file_delete D J c f info s).1).1
            (quick_upload D J md5 c g p today rq (sync_file_delete D J c f info s).1).0
  quick_upload_of_deleted md5 g p today rq fi u look h unnamed known =
      let (empty, same, db) = sync_file_delete_lem u look h in
      let kept : (sync_file_delete D J c f info s).1.db ≡ s.db =
        db ∙ rw ((text_eq_iff info.file_hash []).1 unnamed) (if_same (stat f full_path s.disk)) in
      (
        empty,
        known-Instant D J md5 c g p today rq (sync_file_delete D J c f info s).1 fi
            (ap (find_hash D J md5 c rq.file_hash) kept ∙ known),
      )
    where
      if_same : (b : Bool) → (if b then s.db else s.db) ≡ s.db
      if_same true = refl
      if_same false = refl
