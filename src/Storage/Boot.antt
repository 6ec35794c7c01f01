-- ===== src/Storage/Boot.antt =====
-- The start of a storage: `NewStorage` and the first lines of `Start` in svc/storage.go.
use mathlib.Core.Option.{none-ne-some}
use eggdfs.Base.{
  ◌≡◌, ◌≢◌, refl, sym, ap, ◌∙◌, inl, inr, true, false, Option, none, some, List, [], ◌∷◌, ◌++◌,
  Outcome, done, ◌>>=◌, if◌then◌else◌, length,
}
use eggdfs.Base.Dict.{lookup, lookup-nil}
use eggdfs.Base.Text.{Text, bytes, text_eq, has_byte}
use eggdfs.Common.Const.{dir_create_fail}
use eggdfs.Common.Json.{Json}
use eggdfs.Conf.{GlobalConfig}
use eggdfs.Db.{LevelDb, default_db_dir, new_egg_db}
use eggdfs.Disk.{Disk, file, dir, Faults, calm, stat}
use eggdfs.Disk.Laws.{mkdir_all_lem}
use eggdfs.Storage.{Storage, Task, trans_error_log, slash, new_storage}
use eggdfs.Storage.Download.Laws.{slash_assoc, slash-ne-nil}
use eggdfs.Storage.Place.{HasRoom, ensure_dir_other}
use eggdfs.Storage.Upload.{FormFile, UploadRequest, ensure_dir, exceeds, find_hash, quick_upload}
use eggdfs.Storage.Upload.Outcomes.{Stored, ensure_dir-Grows}
use eggdfs.Storage.Upload.Succeeds.{quick_upload_succeeds}
use eggdfs.Util.{Date, gen_file_path, gen_file_name}

unfoldable pub storage_db_file_name : Text
storage_db_file_name = bytes "storage"

-- The storage directory. `p` is its absolute path. The service starts also where it cannot be made.
unfoldable pub prepare_root :
    {S : Type 0} → GlobalConfig → Faults → Text → Storage S → Storage S × List Task
unfolding ensure_dir
prepare_root c f p s =
    let (d, made) = ensure_dir f c.storage.storage_dir s.disk in
    (
      record s { disk = d },
      if made then [] else trans_error_log dir_create_fail (bytes "root文件夹创建失败" ++ p) ∷ [],
    )

-- `open_file` is `leveldb.OpenFile`.
unfoldable pub start_storage :
    {S : Type 0}
    → (Text → Option S)
    → GlobalConfig
    → Faults
    → Text
    → Disk
    → Outcome (Storage S × List Task)
unfolding new_egg_db new_storage prepare_root storage_db_file_name
start_storage open_file c f p disk = do
  db ← new_egg_db open_file storage_db_file_name
  done (prepare_root c f p (new_storage c db disk))

module _ (c : GlobalConfig) (rooted : c.storage.storage_dir ≢ []) where
  abbrev root : Disk
  root = (ensure_dir calm c.storage.storage_dir []).0

  root_made : (ensure_dir calm c.storage.storage_dir []).1 ≡ true
  unfolding ensure_dir stat
  root_made = rw (lookup-nil c.storage.storage_dir) (
      (mkdir_all_lem calm c.storage.storage_dir []).2 (λ p. refl)
        (λ p m x e. none-ne-some (file x) (sym (lookup-nil p) ∙ e)) rooted)

  root_no_file : (p x : Text) → lookup p root ≢ some (file x)
  root_no_file p x e = elim (ensure_dir-Grows calm c.storage.storage_dir [] p) [
    | inl same ↦ none-ne-some (file x) (sym (lookup-nil p) ∙ sym same ∙ e)
    | inr (gone, made) ↦ cc (sym made ∙ e)
  ]

  root-HasRoom :
      (path name : Text)
      → has_byte b'/' name ≡ false
      → name ≢ []
      → HasRoom (slash c.storage.storage_dir path) name root
  root-HasRoom path name plain named = record {
    rooted = slash-ne-nil c.storage.storage_dir path;
    free = λ p m x. root_no_file p x;
    slot = λ e. none-ne-some dir (
        sym (lookup-nil (slash c.storage.storage_dir (slash path name)))
        ∙ sym (ensure_dir_other calm c.storage.storage_dir (slash path name) [])
        ∙ ap (λ q. lookup q root) (sym (slash_assoc c.storage.storage_dir path name))
        ∙ e);
    plain = plain;
    named = named;
  }

module _ (D : LevelDb) (J : Json) (md5 : Text → Text) (open_file : Text → Option D.State)
    (c : GlobalConfig) (rooted : c.storage.storage_dir ≢ []) (p : Text) (db : D.State) where
  started : Storage D.State
  unfolding new_storage
  started = record (new_storage c db []) { disk = root c rooted }

  start_run :
      open_file (slash default_db_dir storage_db_file_name) ≡ some db
      → start_storage open_file c calm p [] ≡ done (started, [])
  unfolding start_storage started slash
  start_run opens = rw (start_storage, new_egg_db, opens, prepare_root, root_made c rooted)

  -- A storage whose storage directory is not the empty path, and that starts on an empty disk, where the
  -- system refuses nothing and the database opens, reports no error, and then stores any file within the
  -- limit whose digest is right or left out and is not known to the database, under a name that is not
  -- empty and has no slash.
  pub fresh_storage_stores :
      open_file (slash default_db_dir storage_db_file_name) ≡ some db
      → (today : Date) (rq : UploadRequest) (form : FormFile) → rq.form_file ≡ some form
      → find_hash D J md5 c rq.file_hash db ≡ none
      → exceeds c.storage.file_size_limit (length form.content) ≡ false
      → (if text_eq rq.file_hash [] then true else text_eq rq.file_hash (md5 form.content)) ≡ true
      → has_byte b'/' (gen_file_name rq.uuid form.filename) ≡ false
      → gen_file_name rq.uuid form.filename ≢ []
      → (s : Storage D.State) × (start_storage open_file c calm p [] ≡ done (s, []))
        × Stored D J md5 c calm
            (gen_file_path today rq.custom_dir)
            rq
            s
            (quick_upload D J md5 c calm p today rq s).1
            (quick_upload D J md5 c calm p today rq s).0
  unfolding started
  fresh_storage_stores opens today rq form sent unknown fits agrees plain named = (
    started,
    start_run opens,
    quick_upload_succeeds D J md5 c p today rq started (record {
      form = form;
      sent = sent;
      unknown = unknown;
      fits = fits;
      agrees = agrees;
      room = root-HasRoom c rooted (gen_file_path today rq.custom_dir) _ plain named;
    }),
  )
