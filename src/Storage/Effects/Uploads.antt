-- ===== src/Storage/Effects/Uploads.antt =====
-- An upload keeps what its calls keep.
use eggdfs.Base.{◌≡◌, sym, subst, inl, inr, some, Bool-cases, Option-cases, Result-cases, length}
use eggdfs.Base.Text.{Text}
use eggdfs.Common.Json.{Json}
use eggdfs.Conf.{GlobalConfig}
use eggdfs.Db.{LevelDb}
use eggdfs.Disk.{Disk, Faults}
use eggdfs.Storage.{Storage, slash}
use eggdfs.Storage.Upload.{
  FormFile, UploadRequest, save_quick_uploaded_file, exceeds, ensure_dir, find_hash, finish,
  save_form, store, quick_upload,
}
use eggdfs.Storage.Upload.Cases.{unknown_run, known-Instant}
use eggdfs.Storage.Upload.Outcomes.{store_run}
use eggdfs.Util.{Date, gen_file_path, gen_file_name}
use eggdfs.Storage.Effects.{Closed, save_keeps, upload_path}

module _ (D : LevelDb) (J : Json) (c : GlobalConfig) (f : Faults) (P : Disk → Type 0) where
  module _ (md5 : Text → Text) (path : Text) (rq : UploadRequest) where
    save_form_keeps :
        (form : FormFile) (s : Storage D.State)
        → Closed (slash (slash c.storage.storage_dir path) (gen_file_name rq.uuid form.filename)) P
        → P s.disk
        → P (save_form D J md5 c f path (slash c.storage.storage_dir path) rq form s).1.disk
    unfolding save_form finish
    save_form_keeps form s closed h =
        let dst = slash (slash c.storage.storage_dir path) (gen_file_name rq.uuid form.filename) in
        let kept = save_keeps dst P closed md5 f form rq.file_hash s.disk h in
        elim (Bool-cases (exceeds c.storage.file_size_limit (length form.content))) [
          | inl big ↦ rw big h
          | inr fits ↦
              elim (Result-cases (save_quick_uploaded_file md5 f form dst rq.file_hash s.disk).1) [
                | inr (e, run) ↦ rw (fits, run) kept
                | inl (hash, run) ↦ rw (fits, run) kept
              ]
        ]

    store_keeps :
        (p : Text) (s : Storage D.State)
        → ((form : FormFile)
            → rq.form_file ≡ some form
            → Closed
                (slash (slash c.storage.storage_dir path) (gen_file_name rq.uuid form.filename))
                P)
        → ((base : Text) (d : Disk) → P d → P (ensure_dir f base d).0)
        → P s.disk
        → P (store D J md5 c f p path rq s).1.disk
    unfolding store
    store_keeps p s closed made h =
        let base = slash c.storage.storage_dir path in
        elim (Bool-cases (ensure_dir f base s.disk).1) [
          | inr failed ↦ rw failed (made base s.disk h)
          | inl there ↦ elim (Option-cases rq.form_file) [
            | inl absent ↦ rw (there, absent) (made base s.disk h)
            | inr (form, sent) ↦
                subst (λ z. P z.1.disk) (sym (store_run D J md5 c f path rq p s form there sent))
                  (save_form_keeps form (record s { disk = (ensure_dir f base s.disk).0 })
                    (closed form sent) (made base s.disk h))
          ]
        ]

  pub quick_upload_keeps :
      (md5 : Text → Text) (p : Text) (today : Date) (rq : UploadRequest) (s : Storage D.State)
      → ((form : FormFile) → rq.form_file ≡ some form → Closed (upload_path c today rq form) P)
      → ((base : Text) (d : Disk) → P d → P (ensure_dir f base d).0)
      → P s.disk
      → P (quick_upload D J md5 c f p today rq s).1.disk
  unfolding upload_path
  quick_upload_keeps md5 p today rq s closed made h =
      elim (Option-cases (find_hash D J md5 c rq.file_hash s.db)) [
        | inl unknown ↦
            subst (λ z. P z.1.disk) (sym (unknown_run D J md5 c f p today rq s unknown))
              (store_keeps md5 (gen_file_path today rq.custom_dir) rq p s closed made h)
        | inr (info, found) ↦
            subst (λ (z : Storage D.State). P z.disk)
              (sym (known-Instant D J md5 c f p today rq s info found).unchanged) h
      ]
