-- ===== src/Storage/Upload/Succeeds.antt =====
-- When an upload to a storage succeeds.
use mathlib.Core.Option.{none-ne-some}
use eggdfs.Base.{
  ◌≡◌, refl, sym, ap, ◌∙◌, inl, inr, true, false, none, some, [], if◌then◌else◌, length,
}
use eggdfs.Base.Text.{Text, text_eq}
use eggdfs.Common.Const.{success}
use eggdfs.Common.Json.{Json}
use eggdfs.Conf.{GlobalConfig}
use eggdfs.Db.{LevelDb}
use eggdfs.Disk.{calm}
use eggdfs.Storage.{Storage, slash}
use eggdfs.Storage.Place.{HasRoom, HasRoom-create}
use eggdfs.Storage.Upload.{
  FormFile, UploadRequest, gen_md5, exceeds, ensure_dir, find_hash, finish, save_form, quick_upload,
}
use eggdfs.Storage.Upload.Cases.{quick_upload_cases, unknown_run}
use eggdfs.Storage.Upload.Outcomes.{Stored, store_run}
use eggdfs.Storage.Upload.Save.{save_succeeds}
use eggdfs.Util.{Date, gen_file_path, gen_file_name}

module _ (D : LevelDb) (J : Json) (md5 : Text → Text) (c : GlobalConfig) (p : Text) (today : Date)
    (rq : UploadRequest) (s : Storage D.State) where
  -- A request that a storage can serve: a file within the limit, with a digest that is not known yet
  -- and is right or left out, and room for it on the disk.
  pub record CanStore : Type 0 where
    pub form : FormFile
    pub sent : rq.form_file ≡ some form
    pub unknown : find_hash D J md5 c rq.file_hash s.db ≡ none
    pub fits : exceeds c.storage.file_size_limit (length form.content) ≡ false
    pub agrees :
        (if text_eq rq.file_hash [] then true else text_eq rq.file_hash (md5 form.content)) ≡ true
    pub room :
        HasRoom
          (slash c.storage.storage_dir (gen_file_path today rq.custom_dir))
          (gen_file_name rq.uuid form.filename)
          s.disk

  module _ (can : CanStore) where
    save_form-status :
        (save_form D J md5 c calm
          (gen_file_path today rq.custom_dir)
          (slash c.storage.storage_dir (gen_file_path today rq.custom_dir))
          rq
          can.form
          (record s {
            disk =
                (ensure_dir calm
                  (slash c.storage.storage_dir (gen_file_path today rq.custom_dir))
                  s.disk).0;
          })).0.reply.status
        ≡ success
    unfolding save_form finish gen_md5
    save_form-status =
        let base = slash c.storage.storage_dir (gen_file_path today rq.custom_dir) in
        let dst = slash base (gen_file_name rq.uuid can.form.filename) in
        let (made, created) =
          HasRoom-create base (gen_file_name rq.uuid can.form.filename) s.disk can.room in
        rw (
          can.fits,
          save_succeeds md5 calm can.form dst rq.file_hash (ensure_dir calm base s.disk).0 refl
              created refl refl can.agrees,
        )

    quick_upload-status : (quick_upload D J md5 c calm p today rq s).0.reply.status ≡ success
    quick_upload-status =
        let path = gen_file_path today rq.custom_dir in
        let base = slash c.storage.storage_dir path in
        let (made, created) =
          HasRoom-create base (gen_file_name rq.uuid can.form.filename) s.disk can.room in
        ap (λ r. r.0.reply.status)
          (unknown_run D J md5 c calm p today rq s can.unknown
            ∙ store_run D J md5 c calm path rq p s can.form made can.sent)
        ∙ save_form-status

    -- An upload of a file within the limit, whose digest is right or left out and is not known yet, for
    -- which the disk has room, and where the system refuses nothing, is stored.
    pub quick_upload_succeeds :
        Stored D J md5 c calm
          (gen_file_path today rq.custom_dir)
          rq
          s
          (quick_upload D J md5 c calm p today rq s).1
          (quick_upload D J md5 c calm p today rq s).0
    quick_upload_succeeds = elim (quick_upload_cases D J md5 c calm p today rq s) [
      | inl known ↦ absurd (none-ne-some known.info (sym can.unknown ∙ known.found))
      | inr (inl stored) ↦ stored
      | inr (inr refused) ↦ absurd (refused.status quick_upload-status)
    ]
