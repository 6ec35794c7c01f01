-- ===== src/Storage/Upload/Cases.antt =====
-- Every outcome of an upload to a storage.
use eggdfs.Base.{◌≡◌, ◌⊎◌, sym, subst, inl, inr, none, some, Option-cases}
use eggdfs.Base.Text.{Text}
use eggdfs.Common.Const.{success}
use eggdfs.Common.Json.{Json}
use eggdfs.Common.Model.{FileInfo}
use eggdfs.Conf.{GlobalConfig}
use eggdfs.Db.{LevelDb}
use eggdfs.Disk.{Faults}
use eggdfs.Storage.{Storage}
use eggdfs.Storage.Upload.{UploadRequest, Uploaded, no_headers, find_hash, store, quick_upload}
use eggdfs.Util.{Date, gen_file_path}
use eggdfs.Storage.Upload.Outcomes.{Stored, Refused, store-Settles}

module _ (D : LevelDb) (J : Json) (md5 : Text → Text) (c : GlobalConfig) (f : Faults) (p : Text)
    (today : Date) (rq : UploadRequest) (s : Storage D.State) where
  -- The caller's digest was known: the stored record is the answer, no header is set, and nothing
  -- changed.
  pub record Instant (s' : Storage D.State) (u : Uploaded) : Type 0 where
    pub info : FileInfo
    pub found : find_hash D J md5 c rq.file_hash s.db ≡ some info
    pub status : u.reply.status ≡ success
    pub shown : u.reply.data' ≡ some info
    pub headers : u.headers ≡ no_headers
    pub unchanged : s' ≡ s

  pub unknown_run :
      find_hash D J md5 c rq.file_hash s.db ≡ none
      → quick_upload D J md5 c f p today rq s
        ≡ store D J md5 c f p (gen_file_path today rq.custom_dir) rq s
  unfolding quick_upload
  unknown_run unknown = rw (quick_upload, unknown)

  pub known-Instant :
      (info : FileInfo)
      → find_hash D J md5 c rq.file_hash s.db ≡ some info
      → Instant (quick_upload D J md5 c f p today rq s).1 (quick_upload D J md5 c f p today rq s).0
  unfolding quick_upload
  known-Instant info found = record {
    info = info;
    found = found;
    status = rw (quick_upload, found);
    shown = rw (quick_upload, found);
    headers = rw (quick_upload, found);
    unchanged = rw (quick_upload, found);
  }

  abbrev Ends : Uploaded × Storage D.State → Type 0
  Ends r =
      Instant r.1 r.0
      ⊎ Stored D J md5 c f (gen_file_path today rq.custom_dir) rq s r.1 r.0
      ⊎ Refused D J md5 c f (gen_file_path today rq.custom_dir) rq s r.1 r.0

  -- Whatever the system refuses, an upload to a storage ends in one of three ways. The caller's digest
  -- is known to the database: the answer is the stored record, no header is set and nothing changes.
  -- Or the file is saved: the headers name its path and its digest, which is the one that the caller
  -- gave, if any, the whole file stands at that path, its size is at most the limit, if there is a
  -- positive one, its record was put under the digest, an error of the put dropped, and nothing else on
  -- the disk changes but for new directories. Where the system does not let the saved file be read back,
  -- that digest is empty, and the database is unchanged. Or the status is another than success, no header
  -- is set and the database is unchanged.
  pub quick_upload_cases :
      Instant (quick_upload D J md5 c f p today rq s).1 (quick_upload D J md5 c f p today rq s).0
      ⊎ Stored D J md5 c f
          (gen_file_path today rq.custom_dir)
          rq
          s
          (quick_upload D J md5 c f p today rq s).1
          (quick_upload D J md5 c f p today rq s).0
      ⊎ Refused D J md5 c f
          (gen_file_path today rq.custom_dir)
          rq
          s
          (quick_upload D J md5 c f p today rq s).1
          (quick_upload D J md5 c f p today rq s).0
  quick_upload_cases = elim (Option-cases (find_hash D J md5 c rq.file_hash s.db)) [
    | inl unknown ↦
        subst Ends (sym (unknown_run unknown))
          (inr (store-Settles D J md5 c f (gen_file_path today rq.custom_dir) rq p s))
    | inr (info, found) ↦ inl (known-Instant info found)
  ]
