-- ===== src/Storage/Download/Laws.antt =====
-- A file that an upload stored can be downloaded under the path that the headers named.
use mathlib.Core.List.{append_assoc}
use eggdfs.Base.{◌≡◌, ◌≢◌, sym, ap, ◌∙◌, false, some, [], ◌∷◌, if◌then◌else◌, arith}
use eggdfs.Base.Dict.{lookup}
use eggdfs.Base.Text.{Text, text_eq, text_eq_iff}
use eggdfs.Common.Json.{Json}
use eggdfs.Common.Mime.{default_file_download_content_type}
use eggdfs.Conf.{GlobalConfig}
use eggdfs.Db.{LevelDb}
use eggdfs.Disk.{file, Faults, stat}
use eggdfs.Storage.{Storage, slash}
use eggdfs.Storage.Download.{sent, attachment, download}
use eggdfs.Storage.Upload.{UploadRequest, Uploaded}
use eggdfs.Storage.Upload.Outcomes.{Stored}
use eggdfs.Util.{path_base, gen_file_name}
use eggdfs.Util.ContentType.{get_file_content_type-path_ext}

pub slash_assoc : (a b c : Text) → slash (slash a b) c ≡ slash a (slash b c)
unfolding slash
slash_assoc a b c = append_assoc a (b'/' ∷ b) (b'/' ∷ c)

pub slash-ne-nil : (a b : Text) → slash a b ≢ []
unfolding slash
slash-ne-nil [] b e = cc
slash-ne-nil (x ∷ a) b e = cc

pub download_found :
    {S : Type 0} (c : GlobalConfig) (f : Faults) (path name content : Text) (s : Storage S)
    → path ≢ []
    → f.no_stat (slash c.storage.storage_dir path) ≡ false
    → lookup (slash c.storage.storage_dir path) s.disk ≡ some (file content)
    → download c f path name s
      ≡ sent
          (slash c.storage.storage_dir path)
          (attachment (if text_eq name [] then path_base path else name))
          default_file_download_content_type
unfolding download stat
download_found c f path name content s n look at =
    let given : text_eq path [] ≡ false = ground (arith, text_eq_iff path []) in
    rw (download, given, stat, look, at, get_file_content_type-path_ext path)

module _ (D : LevelDb) (J : Json) (md5 : Text → Text) (c : GlobalConfig) (f : Faults) (path : Text)
    (rq : UploadRequest) (s s' : Storage D.State) (u : Uploaded) where
  pub Stored-content :
      (st : Stored D J md5 c f path rq s s' u)
      → lookup (slash c.storage.storage_dir u.headers.file_path) s'.disk
        ≡ some (file st.form.content)
  Stored-content st =
      ap (λ z. lookup (slash c.storage.storage_dir z) s'.disk) st.named
      ∙ ap (λ z. lookup z s'.disk)
          (sym (slash_assoc c.storage.storage_dir path (gen_file_name rq.uuid st.form.filename)))
      ∙ st.content

  -- After an upload was stored, a download of the path that its headers named, at a storage in that
  -- state that lets the path be looked up, sends that very file, as an attachment of the default type
  -- under the name that the client asks for or the last element of the path.
  pub download-Stored :
      (st : Stored D J md5 c f path rq s s' u) (g : Faults) (name : Text)
      → g.no_stat (slash c.storage.storage_dir u.headers.file_path) ≡ false
      → (download c g u.headers.file_path name s'
          ≡ sent
              (slash c.storage.storage_dir u.headers.file_path)
              (attachment (if text_eq name [] then path_base u.headers.file_path else name))
              default_file_download_content_type)
        × (lookup (slash c.storage.storage_dir u.headers.file_path) s'.disk
            ≡ some (file st.form.content))
  download-Stored st g name look = (
    download_found c g u.headers.file_path name st.form.content s'
        (λ e. slash-ne-nil path (gen_file_name rq.uuid st.form.filename) (sym st.named ∙ e)) look
        (Stored-content st),
    Stored-content st,
  )
