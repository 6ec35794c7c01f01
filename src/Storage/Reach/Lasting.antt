-- ===== src/Storage/Reach/Lasting.antt =====
-- A file that was stored outlasts the steps that do not name it.
use mathlib.Core.Option
use mathlib.Core.Option.{some-injective, none-ne-some, some-ne-none}
use eggdfs.Base.{◌≡◌, refl, sym, ap, ◌∙◌, false, Option, some, List, [], ◌∷◌, if◌then◌else◌}
use eggdfs.Base.Dict.{lookup, NodupKeys}
use eggdfs.Base.Text.{Text, text_eq}
use eggdfs.Common.Json.{Json}
use eggdfs.Common.Mime.{default_file_download_content_type}
use eggdfs.Conf.{GlobalConfig}
use eggdfs.Db.{LevelDb}
use eggdfs.Disk.{file, Faults}
use eggdfs.Storage.{Storage, slash}
use eggdfs.Storage.Download.{sent, attachment, download}
use eggdfs.Storage.Download.Laws.{download_found, slash-ne-nil, slash_assoc}
use eggdfs.Storage.Effects.{upload_path}
use eggdfs.Storage.Upload.{UploadRequest, Uploaded, quick_upload}
use eggdfs.Storage.Upload.Outcomes.{Stored}
use eggdfs.Util.{Date, gen_file_path, path_base, gen_file_name}
use eggdfs.Storage.Reach.{here, next, upload, Run, Avoids, Run-keeps, Run-NodupKeys}

module _ (D : LevelDb) (J : Json) (md5 : Text → Text) (c : GlobalConfig) where
  module _ (f : Faults) (p : Text) (today : Date) (rq : UploadRequest) (s : Storage D.State)
      (u : Uploaded) (s' : Storage D.State) where
    -- After an upload to a storage that stored its file, on a disk that listed no path twice, and any
    -- further uploads, copies, deletions and removals that do not name the path of that file, whatever
    -- the system refuses of them, a download of the path that the headers of the upload named still
    -- sends that file, unless the path may not be looked up.
    pub upload_lasts :
        quick_upload D J md5 c f p today rq s ≡ (u, s')
        → (st : Stored D J md5 c f (gen_file_path today rq.custom_dir) rq s s' u) → NodupKeys s.disk
        → (ps : List (Option Text)) (w : Storage D.State) → Run D J md5 c s' ps w
        → Avoids D J md5 c (upload_path c today rq st.form) ps
        → (g : Faults) (name : Text)
        → g.no_stat (slash c.storage.storage_dir u.headers.file_path) ≡ false
        → (download c g u.headers.file_path name w
            ≡ sent
                (slash c.storage.storage_dir u.headers.file_path)
                (attachment (if text_eq name [] then path_base u.headers.file_path else name))
                default_file_download_content_type)
          × (lookup (slash c.storage.storage_dir u.headers.file_path) w.disk
              ≡ some (file st.form.content))
    unfolding upload_path
    upload_lasts run st once ps w later free g name look =
        let path = gen_file_path today rq.custom_dir in
        let full = slash c.storage.storage_dir u.headers.file_path in
        let first : Run D J md5 c s (Option.map (upload_path c today rq) rq.form_file ∷ []) s' =
          next here (upload f p today rq refl (ap (λ z. z.1) run)) in
        let (once', kept) =
          Run-keeps D J md5 c s' w ps (upload_path c today rq st.form) (file st.form.content) later
            free (Run-NodupKeys D J md5 c s s' _ first once, st.content) in
        let there : lookup full w.disk ≡ some (file st.form.content) =
          ap (λ z. lookup z w.disk)
            (ap (slash c.storage.storage_dir) st.named
              ∙ sym
                  (slash_assoc c.storage.storage_dir path (gen_file_name rq.uuid st.form.filename)))
          ∙ kept in
        (
          download_found c g u.headers.file_path name st.form.content w
              (λ e. slash-ne-nil path (gen_file_name rq.uuid st.form.filename) (sym st.named ∙ e))
              look there,
          there,
        )
