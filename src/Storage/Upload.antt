-- ===== src/Storage/Upload.antt =====
-- `QuickUpload` and `SaveQuickUploadedFile` of svc/storage.go. `md5` is the digest in hexadecimal.
pub mod Save
pub mod Outcomes
pub mod Cases
pub mod Succeeds
use mathlib.Core.Bool.{◌&&◌, not}
use eggdfs.Base.{
  ℕ, Bool, true, false, Option, none, some, List, [], ◌∷◌, ◌++◌, Result, ok, err, ltb,
  if◌then◌else◌, length,
}
use eggdfs.Base.Int.{ℤ, pos, negsuc}
use eggdfs.Base.Text.{Text, bytes, text_eq}
use eggdfs.Common.Const.{
  success, dir_create_fail, form_file_not_found, file_size_exceeded, file_save_fail,
}
use eggdfs.Common.Json.{Json}
use eggdfs.Common.Model.{FileInfo}
use eggdfs.Conf.{GlobalConfig}
use eggdfs.Db
use eggdfs.Db.{LevelDb, put_quietly, is_exist_key}
use eggdfs.Disk.{Disk, Faults, stat, mkdir_all, create, copy_into}
use eggdfs.Storage.{
  Storage, Answer, answer, Task, trans_error_log, remove_later, slash, gen_file_static_url,
}
use eggdfs.Tracker.Proxy.{Headers}
use eggdfs.Tracker.Upload.{success_text}
use eggdfs.Util.{Date, gen_file_path, gen_file_name}

-- A file of a form. Its size is the number of its bytes.
pub record FormFile : Type 0 where
  pub filename : Text
  pub content : Text

-- The headers of the request that the handler reads, and the file of its form.
pub record UploadRequest : Type 0 where
  pub file_hash : Text
  pub custom_dir : Text
  pub uuid : Text
  pub form_file : Option FormFile

-- The answer, the headers that were set, and the goroutines that were started.
pub record Uploaded : Type 0 where
  pub reply : Answer
  pub headers : Headers
  pub tasks : List Task

abbrev pub no_headers : Headers
no_headers = record { upload_res = []; file_path = []; file_hash = [] }

abbrev pub refuse : ℕ → Text → Uploaded
refuse status message = record { reply = answer status message; headers = no_headers; tasks = [] }

-- `GenMD5` of the file that was saved: a failure to read it gives the empty text and no error.
unfoldable pub gen_md5 : (Text → Text) → Faults → Text → Text
gen_md5 md5 f content = if f.unreadable then [] else md5 content

unfoldable pub damaged : Text
damaged = bytes "file is already damaged"

-- The last steps of `SaveQuickUploadedFile`: the comparison, and the removal of a file that fails it.
unfoldable pub check_hash : Text → Text → Text → Result Text Text × List Task
check_hash dst md5hash hash =
    if not (text_eq hash md5hash) && not (text_eq hash [])
    then (err damaged, remove_later dst ∷ [])
    else (ok md5hash, [])

-- From the copy on.
unfoldable pub save_content :
    (Text → Text) → Faults → Text → Text → Text → Disk → Disk × Result Text Text × List Task
unfolding copy_into gen_md5 check_hash
save_content md5 f content dst hash d =
    let (d', whole) = copy_into f dst content d in
    if not whole
    then (d', err f.message, [])
    else if f.no_reopen
    then (d', err f.message, [])
    else (let (r, tasks) = check_hash dst (gen_md5 md5 f content) hash in (d', r, tasks))

unfoldable pub save_quick_uploaded_file :
    (Text → Text) → Faults → FormFile → Text → Text → Disk → Disk × Result Text Text × List Task
unfolding create save_content
save_quick_uploaded_file md5 f form dst hash d =
    if f.no_open then (d, err f.message, []) else elim (create f dst d) [
      | none ↦ (d, err f.message, [])
      | some d' ↦ save_content md5 f form.content dst hash d'
    ]

-- `config().Storage.FileSizeLimit > 0 && file.Size > config().Storage.FileSizeLimit`
unfoldable pub exceeds : ℤ → ℕ → Bool
exceeds (pos limit) size = ltb 0 limit && ltb limit size
exceeds (negsuc n) size = false

-- `os.Stat`, and `os.MkdirAll` where it finds nothing.
unfoldable pub ensure_dir : Faults → Text → Disk → Disk × Bool
unfolding stat mkdir_all
ensure_dir f base d = if stat f base d then (d, true) else mkdir_all f base d

module _ (D : LevelDb) (J : Json) (md5 : Text → Text) (c : GlobalConfig) where
  -- The record of a file with this hash, if there is a hash and the database has the key. A failed
  -- `Get` leaves no bytes to decode.
  unfoldable pub find_hash : Text → D.State → Option FileInfo
  unfolding is_exist_key Db.get
  find_hash hash db = if text_eq hash [] then none else elim (is_exist_key D db hash) [
    | err e ↦ none
    | ok false ↦ none
    | ok true ↦ some (J.unmarshal_file (elim (Db.get D db hash) [ ok b ↦ b | err e ↦ [] ]))
  ]

  unfoldable pub file_info : Text → UploadRequest → FormFile → Text → Storage D.State → FileInfo
  unfolding gen_file_static_url gen_file_name slash
  file_info path rq form hash s =
      let name = gen_file_name rq.uuid form.filename in
      record {
        file_id = rq.uuid;
        name = form.filename;
        rename = name;
        url = gen_file_static_url c s path name;
        path = slash path name;
        md5 = hash;
        size = length form.content;
        group = c.storage.group;
      }

  -- The file was saved: its record, the headers and the answer.
  unfoldable pub finish :
      Text → UploadRequest → FormFile → Text → Storage D.State → Uploaded × Storage D.State
  unfolding file_info put_quietly
  finish path rq form hash s =
      let fi = file_info path rq form hash s in
      (
        record {
          reply = record { status = success; message = bytes "文件保存成功"; data' = some fi };
          headers = record {
            upload_res = success_text;
            file_path = slash path fi.rename;
            file_hash = hash;
          };
          tasks = [];
        },
        record s { db = put_quietly D s.db hash (J.marshal_file fi) },
      )

  -- The size limit and the saving, in the directory `base`.
  unfoldable pub save_form :
      Faults → Text → Text → UploadRequest → FormFile → Storage D.State → Uploaded × Storage D.State
  unfolding exceeds save_quick_uploaded_file finish
  save_form f path base rq form s =
      if exceeds c.storage.file_size_limit (length form.content)
      then (refuse file_size_exceeded (bytes "文件大小超过限制"), s)
      else let (d, r, tasks) =
          save_quick_uploaded_file md5 f form (slash base (gen_file_name rq.uuid form.filename))
            rq.file_hash s.disk in
        elim r [
          | err e ↦ (
            record { reply = answer file_save_fail e; headers = no_headers; tasks = tasks },
            record s { disk = d },
          )
          | ok hash ↦ finish path rq form hash (record s { disk = d })
        ]

  -- `p` is the absolute path of the storage directory, for the message.
  unfoldable pub store :
      Faults → Text → Text → UploadRequest → Storage D.State → Uploaded × Storage D.State
  unfolding ensure_dir save_form slash
  store f p path rq s =
      let base = slash c.storage.storage_dir path in
      let (d, made) = ensure_dir f base s.disk in
      if not made
      then (
        record {
          reply = answer dir_create_fail (bytes "文件保存路径创建失败");
          headers = no_headers;
          tasks = trans_error_log dir_create_fail (bytes "文件保存路径创建失败" ++ p) ∷ [];
        },
        record s { disk = d },
      )
      else elim rq.form_file [
        | none ↦ (refuse form_file_not_found (bytes "未能索引上传文件"), record s { disk = d })
        | some form ↦ save_form f path base rq form (record s { disk = d })
      ]

  unfoldable pub quick_upload :
      Faults → Text → Date → UploadRequest → Storage D.State → Uploaded × Storage D.State
  unfolding find_hash store gen_file_path
  quick_upload f p today rq s = elim (find_hash rq.file_hash s.db) [
    | some fi ↦ (
      record {
        reply = record { status = success; message = bytes "文件已存在，秒传成功"; data' = some fi };
        headers = no_headers;
        tasks = [];
      },
      s,
    )
    | none ↦ store f p (gen_file_path today rq.custom_dir) rq s
  ]
