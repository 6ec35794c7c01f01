-- ===== src/Storage/Reach/Damaged.antt =====
-- An upload whose digest is not that of its file.
use eggdfs.Base.{◌≡◌, ◌≢◌, refl, sym, ap, ◌∙◌, subst, inl, inr, false, none, some, [], ◌∷◌, length}
use eggdfs.Base.Dict.{lookup, insert, remove, NodupKeys, lookup-insert_self, insert-NodupKeys}
use eggdfs.Base.Text.{Text}
use eggdfs.Common.Const.{file_save_fail}
use eggdfs.Common.Json.{Json}
use eggdfs.Conf.{GlobalConfig}
use eggdfs.Db.{LevelDb}
use eggdfs.Disk.{Disk, file, calm, remove_path}
use eggdfs.Disk.Files.{GrowsBut, GrowsBut-of, SameBut-trans, insert-SameBut, remove_path_lem}
use eggdfs.Storage.{Storage, answer, remove_later, slash}
use eggdfs.Storage.Place.{HasRoom, HasRoom-create}
use eggdfs.Storage.Reach.{remove_damaged, ensure_dir-NodupKeys}
use eggdfs.Storage.Upload.{
  FormFile, UploadRequest, Uploaded, no_headers, gen_md5, damaged, exceeds, ensure_dir, find_hash,
  save_form, quick_upload,
}
use eggdfs.Storage.Upload.Cases.{unknown_run}
use eggdfs.Storage.Upload.Outcomes.{store_run, ensure_dir-Grows}
use eggdfs.Storage.Upload.Save.{save_damaged}
use eggdfs.Util.{Date, gen_file_path, gen_file_name}

module _ (D : LevelDb) (J : Json) (md5 : Text → Text) (c : GlobalConfig) (p : Text) (today : Date)
    (rq : UploadRequest) (s : Storage D.State) (form : FormFile) where
  abbrev base : Text
  base = slash c.storage.storage_dir (gen_file_path today rq.custom_dir)

  abbrev pub dst : Text
  dst = slash base (gen_file_name rq.uuid form.filename)

  abbrev ready : Disk
  ready = insert dst (file []) (ensure_dir calm base s.disk).0

  abbrev filled : Disk
  filled = insert dst (file form.content) ready

  -- The request has a file within the limit, and a digest that is not known and not that of the file.
  pub record IsDamaged : Type 0 where
    pub sent : rq.form_file ≡ some form
    pub unknown : find_hash D J md5 c rq.file_hash s.db ≡ none
    pub fits : exceeds c.storage.file_size_limit (length form.content) ≡ false
    pub given : rq.file_hash ≢ []
    pub differs : rq.file_hash ≢ md5 form.content
    pub room : HasRoom base (gen_file_name rq.uuid form.filename) s.disk

  module _ (bad : IsDamaged) where
    save_form_run :
        save_form D J md5 c calm
          (gen_file_path today rq.custom_dir)
          base
          rq
          form
          (record s { disk = (ensure_dir calm base s.disk).0 })
        ≡ (
          record {
            reply = answer file_save_fail damaged;
            headers = no_headers;
            tasks = remove_later dst ∷ [];
          },
          record s { disk = filled },
        )
    unfolding save_form gen_md5
    save_form_run =
        let (made, created) =
          HasRoom-create base (gen_file_name rq.uuid form.filename) s.disk bad.room in
        let run =
          save_damaged md5 calm form dst rq.file_hash (ensure_dir calm base s.disk).0 refl created
            refl refl bad.given bad.differs in
        rw (save_form, bad.fits, ap (λ z. z.1) run, ap (λ z. z.2) run, ap (λ z. z.0) run)

    upload_run : quick_upload D J md5 c calm p today rq s ≡ (
      record {
        reply = answer file_save_fail damaged;
        headers = no_headers;
        tasks = remove_later dst ∷ [];
      },
      record s { disk = filled },
    )
    upload_run =
        let (made, created) =
          HasRoom-create base (gen_file_name rq.uuid form.filename) s.disk bad.room in
        unknown_run D J md5 c calm p today rq s bad.unknown
        ∙ store_run D J md5 c calm (gen_file_path today rq.custom_dir) rq p s form made bad.sent
        ∙ save_form_run

    filled-GrowsBut : GrowsBut dst s.disk filled
    filled-GrowsBut =
        GrowsBut-of dst s.disk (ensure_dir calm base s.disk).0 filled
          (ensure_dir-Grows calm base s.disk)
          (SameBut-trans dst _ ready filled (insert-SameBut dst (file []) _)
            (insert-SameBut dst (file form.content) ready))

    filled-NodupKeys : NodupKeys s.disk → NodupKeys filled
    filled-NodupKeys once =
        insert-NodupKeys dst (file form.content) ready
          (insert-NodupKeys dst (file []) _ (ensure_dir-NodupKeys calm base s.disk once))

    gone : remove_path calm dst filled ≡ some (remove dst filled)
    unfolding remove_path
    gone = rw (remove_path, lookup-insert_self dst (file form.content) ready)

    removal_run : (remove_damaged calm dst (record s { disk = filled })).disk ≡ remove dst filled
    unfolding remove_damaged
    removal_run = rw (remove_damaged, gone)

    -- An upload of a file within the size limit, with a digest that is not that of the file and that the
    -- database does not know, where the disk has room and the system refuses nothing, is answered with a
    -- failure, without headers, and starts the removal of the file and nothing else. Once the removal is
    -- done, on a disk that listed no path twice, no file is left at that path, nothing else on the disk
    -- differs from before but for new directories, and the database is unchanged.
    pub quick_upload-damaged :
        NodupKeys s.disk
        → (u : Uploaded) × (s' : Storage D.State) × (quick_upload D J md5 c calm p today rq s
            ≡ (u, s'))
          × (u.reply ≡ answer file_save_fail damaged)
          × (u.headers ≡ no_headers)
          × (u.tasks ≡ remove_later dst ∷ [])
          × (lookup dst (remove_damaged calm dst s').disk ≡ none)
          × GrowsBut dst s.disk (remove_damaged calm dst s').disk
          × ((remove_damaged calm dst s').db ≡ s.db)
    unfolding remove_damaged
    quick_upload-damaged once =
        let (empty, same) =
          remove_path_lem calm dst filled (remove dst filled) (filled-NodupKeys once) gone in
        (
          _,
          _,
          upload_run,
          refl,
          refl,
          refl,
          ap (lookup dst) removal_run ∙ empty,
          subst (GrowsBut dst s.disk) (sym removal_run) (λ q differ.
              elim (filled-GrowsBut q differ) [
                | inl kept ↦ inl (same q differ ∙ kept)
                | inr (new, made) ↦ inr (new, same q differ ∙ made)
              ]),
          rw (remove_damaged, gone),
        )
