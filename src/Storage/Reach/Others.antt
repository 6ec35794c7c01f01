-- ===== src/Storage/Reach/Others.antt =====
-- The generated names keep the files of different uploads apart.
use mathlib.Core.Option
use eggdfs.Base.{
  ◌≡◌, ◌≢◌, ◌⊎◌, sym, ap, ◌∙◌, inl, inr, false, Option, none, some, List, [], ◌∷◌, Option-cases,
  if◌then◌else◌,
}
use eggdfs.Base.Dict.{lookup, NodupKeys}
use eggdfs.Base.Text.{Text, text_eq}
use eggdfs.Common.Json.{Json}
use eggdfs.Common.Mime.{default_file_download_content_type}
use eggdfs.Conf.{GlobalConfig}
use eggdfs.Db.{LevelDb}
use eggdfs.Disk.{file, Faults}
use eggdfs.Storage.{Storage, slash}
use eggdfs.Storage.Download.{sent, attachment, download}
use eggdfs.Storage.Effects.{upload_path}
use eggdfs.Storage.Upload.{UploadRequest, Uploaded, quick_upload}
use eggdfs.Storage.Upload.Outcomes.{Stored}
use eggdfs.Util.{Date, gen_file_path, path_base, gen_file_name}
use eggdfs.Storage.Reach.{Run, Avoids}
use mathlib.Core.Option.{some-injective, none-ne-some}
use eggdfs.Storage.Reach.Lasting.{upload_lasts}
use eggdfs.Util.Names.{IsPlain, stored_name-injective}

-- A step names no file, or one whose name was generated from another identifier.
abbrev pub IsForeign : Text → Option Text → Type 0
IsForeign id named =
    (named ≡ none)
    ⊎ ((base : Text) × (other : Text) × (fn : Text) × (named
          ≡ some (slash base (gen_file_name other fn)))
        × IsPlain other
        × (other ≢ id))

abbrev pub AreForeign : Text → List (Option Text) → Type 0
AreForeign id [] = Unit
AreForeign id (named ∷ ps) = IsForeign id named × AreForeign id ps

foreign-ne :
    (base id fn : Text) (named : Option Text)
    → IsPlain id
    → IsForeign id named
    → named ≢ some (slash base (gen_file_name id fn))
unfolding slash
foreign-ne base id fn named plain (inl absent) e = none-ne-some _ (sym absent ∙ e)
foreign-ne base id fn named plain (inr (base', other, fn', at, plain', differ)) e =
    differ
      (stored_name-injective base' base other id fn' fn plain' plain
        (some-injective _ _ (sym at ∙ e))).1

module _ (D : LevelDb) (J : Json) (md5 : Text → Text) (c : GlobalConfig) where
  foreign-Avoids :
      (base id fn : Text) (ps : List (Option Text))
      → IsPlain id
      → AreForeign id ps
      → Avoids D J md5 c (slash base (gen_file_name id fn)) ps
  foreign-Avoids base id fn [] plain h = tt
  foreign-Avoids base id fn (named ∷ ps) plain (first, rest) =
      (foreign-ne base id fn named plain first, foreign-Avoids base id fn ps plain rest)

  -- An upload names a file of its own identifier.
  pub upload-IsForeign :
      (today : Date) (rq : UploadRequest) (id : Text)
      → IsPlain rq.uuid
      → rq.uuid ≢ id
      → IsForeign id (Option.map (upload_path c today rq) rq.form_file)
  unfolding upload_path
  upload-IsForeign today rq id plain differ = elim (Option-cases rq.form_file) [
    | inl none_sent ↦ inl (ap (Option.map (upload_path c today rq)) none_sent)
    | inr (form, given) ↦ inr (
      slash c.storage.storage_dir (gen_file_path today rq.custom_dir),
      rq.uuid,
      form.filename,
      ap (Option.map (upload_path c today rq)) given,
      plain,
      differ,
    )
  ]

  module _ (f : Faults) (p : Text) (today : Date) (rq : UploadRequest) (s : Storage D.State)
      (u : Uploaded) (s' : Storage D.State) where
    -- After an upload, under an identifier without slashes and dots, to a storage that stored its file, on
    -- a disk that listed no path twice, and any further uploads, copies, deletions and removals of files
    -- with other such identifiers, whatever the directories and the names of the clients are and whatever
    -- the system refuses, a download of the path that the headers of the upload named still sends that
    -- file, unless the path may not be looked up.
    pub uploads_apart :
        quick_upload D J md5 c f p today rq s ≡ (u, s')
        → (st : Stored D J md5 c f (gen_file_path today rq.custom_dir) rq s s' u) → NodupKeys s.disk
        → IsPlain rq.uuid
        → (ps : List (Option Text)) (w : Storage D.State) → Run D J md5 c s' ps w
        → AreForeign rq.uuid ps
        → (g : Faults) (name : Text)
        → g.no_stat (slash c.storage.storage_dir u.headers.file_path) ≡ false
        → (download c g u.headers.file_path name w
            ≡ sent
                (slash c.storage.storage_dir u.headers.file_path)
                (attachment (if text_eq name [] then path_base u.headers.file_path else name))
                default_file_download_content_type)
          × (lookup (slash c.storage.storage_dir u.headers.file_path) w.disk
              ≡ some (file st.form.content))
    unfolding upload_path
    uploads_apart run st once plain ps w later foreign g name look =
        upload_lasts D J md5 c f p today rq s u s' run st once ps w later
          (foreign-Avoids (slash c.storage.storage_dir (gen_file_path today rq.custom_dir)) rq.uuid
            st.form.filename ps plain foreign)
          g name look
