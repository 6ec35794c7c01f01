-- ===== src/Storage/Upload/Outcomes.antt =====
-- The outcomes of an upload whose digest is not known to the storage.
use eggdfs.Base.{
  ℕ, ◌≤◌, ◌∙◌, [], ◌∷◌, ◌<◌, ◌≡◌, ◌≢◌, ◌⊎◌, refl, sym, subst, inl, inr, true, false, some,
  Result-cases, arith, Bool-cases, Option-cases, length,
}
use eggdfs.Base.Dict.{lookup}
use eggdfs.Base.Int.{ℤ, pos}
use eggdfs.Base.Text.{Text, text_eq}
use eggdfs.Common.Const.{
  success, dir_create_fail, form_file_not_found, file_size_exceeded, file_save_fail,
}
use eggdfs.Common.Json.{Json}
use eggdfs.Conf.{GlobalConfig}
use eggdfs.Db.{LevelDb, put, put_quietly}
use eggdfs.Disk.{Disk, file, Faults, stat}
use eggdfs.Disk.Laws.{Grows, Grows-refl, mkdir_all_lem}
use eggdfs.Disk.Files.{GrowsBut, GrowsBut-of}
use eggdfs.Storage.{Storage, slash}
use eggdfs.Storage.Upload.{
  FormFile, UploadRequest, Uploaded, no_headers, gen_md5, save_quick_uploaded_file, exceeds,
  ensure_dir, file_info, finish, save_form, store,
}
use eggdfs.Storage.Upload.Save.{Agrees, save-SameBut, save_ok}
use eggdfs.Tracker.Upload.{success_text}
use eggdfs.Util.{gen_file_name}

pub ensure_dir-Grows : (f : Faults) (base : Text) (d : Disk) → Grows d (ensure_dir f base d).0
unfolding ensure_dir
ensure_dir-Grows f base d = elim (Bool-cases (stat f base d)) [
  | inl there ↦ rw there (Grows-refl d)
  | inr missing ↦ rw missing (mkdir_all_lem f base d).0
]

gen_md5_read :
    (md5 : Text → Text) (f : Faults) (x : Text) → f.unreadable ≡ false → gen_md5 md5 f x ≡ md5 x
unfolding gen_md5
gen_md5_read md5 f x readable = rw readable

gen_md5_unread :
    (md5 : Text → Text) (f : Faults) (x : Text) → f.unreadable ≡ true → gen_md5 md5 f x ≡ []
unfolding gen_md5
gen_md5_unread md5 f x unread = rw unread

exceeds-le :
    (limit : ℤ) (size : ℕ) → exceeds limit size ≡ false → (l : ℕ) → limit ≡ pos l → 0 < l → size ≤ l
unfolding exceeds
exceeds-le limit size fits l e some_limit =
    let here : exceeds (pos l) size ≡ false = subst (λ z. exceeds z size ≡ false) e fits in
    ground arith

put_quietly_empty : (D : LevelDb) (d : D.State) (k v : Text) → k ≡ [] → put_quietly D d k v ≡ d
unfolding put_quietly put text_eq
put_quietly_empty D d [] v e = refl
put_quietly_empty D d (c ∷ k) v e = cc

module _ (D : LevelDb) (J : Json) (md5 : Text → Text) (c : GlobalConfig) (f : Faults) (path : Text)
    (rq : UploadRequest) where
  -- The file of the form was saved in the directory `path` below the storage directory: the headers
  -- name its path and its digest, which agrees with the one that the caller gave, the whole file is
  -- there, it is within the limit, and its record was put under the digest. Where the system does not
  -- let the file be read back, the digest is empty and there is no record. Nothing else changed, but
  -- for new directories.
  pub record Stored (s s' : Storage D.State) (u : Uploaded) : Type 0 where
    pub form : FormFile
    pub sent : rq.form_file ≡ some form
    pub status : u.reply.status ≡ success
    pub headed : u.headers.upload_res ≡ success_text
    pub named : u.headers.file_path ≡ slash path (gen_file_name rq.uuid form.filename)
    pub agrees : Agrees rq.file_hash (gen_md5 md5 f form.content) u.headers.file_hash
    pub digest : f.unreadable ≡ false → u.headers.file_hash ≡ md5 form.content
    pub no_digest : f.unreadable ≡ true → u.headers.file_hash ≡ []
    pub within :
        (limit : ℕ)
        → c.storage.file_size_limit ≡ pos limit
        → 0 < limit
        → length form.content ≤ limit
    pub content :
        lookup
          (slash (slash c.storage.storage_dir path) (gen_file_name rq.uuid form.filename))
          s'.disk
        ≡ some (file form.content)
    pub others :
        GrowsBut
          (slash (slash c.storage.storage_dir path) (gen_file_name rq.uuid form.filename))
          s.disk
          s'.disk
    pub recorded :
        s'.db
        ≡ put_quietly D s.db u.headers.file_hash
            (J.marshal_file (file_info D J md5 c path rq form u.headers.file_hash s))
    pub unrecorded : u.headers.file_hash ≡ [] → s'.db ≡ s.db

  -- Another status than success, no headers, and no record.
  pub record Refused (s s' : Storage D.State) (u : Uploaded) : Type 0 where
    pub status : u.reply.status ≢ success
    pub headers : u.headers ≡ no_headers
    pub db : s'.db ≡ s.db

  abbrev pub Settles : Storage D.State → Uploaded × Storage D.State → Type 0
  Settles s r = Stored s r.1 r.0 ⊎ Refused s r.1 r.0

  fail-ne-success : (n : ℕ) → 20000 < n → n ≢ success
  fail-ne-success n h e = omega arith

  save_form-Settles :
      (form : FormFile) (s : Storage D.State) (d : Disk)
      → rq.form_file ≡ some form
      → Grows s.disk d
      → Settles s (
          save_form D J md5 c f path
            (slash c.storage.storage_dir path)
            rq
            form
            (record s { disk = d }))
  unfolding save_form finish file_info
  save_form-Settles form s d sent g =
      let dst = slash (slash c.storage.storage_dir path) (gen_file_name rq.uuid form.filename) in
      elim (Bool-cases (exceeds c.storage.file_size_limit (length form.content))) [
        | inl big ↦ rw big (
            inr (record {
              status = fail-ne-success file_size_exceeded (omega arith);
              headers = refl;
              db = refl;
            }))
        | inr fits ↦
            elim (Result-cases (save_quick_uploaded_file md5 f form dst rq.file_hash d).1) [
              | inr (e, run) ↦
                  rw (fits, run)
                    (inr (record {
                      status = fail-ne-success file_save_fail (omega arith);
                      headers = refl;
                      db = refl;
                    }))
              | inl (h, run) ↦
                  let (there, agrees) = save_ok md5 f form dst rq.file_hash d h run in
                  rw (fits, run)
                    (inl (record {
                      form = form;
                      sent = sent;
                      status = refl;
                      headed = refl;
                      named = refl;
                      agrees = agrees;
                      digest = λ readable. agrees.0 ∙ gen_md5_read md5 f form.content readable;
                      no_digest = λ unread. agrees.0 ∙ gen_md5_unread md5 f form.content unread;
                      within = exceeds-le c.storage.file_size_limit (length form.content) fits;
                      content = there;
                      others =
                          GrowsBut-of dst s.disk d _ g (save-SameBut md5 f form dst rq.file_hash d);
                      recorded = refl;
                      unrecorded = λ e. put_quietly_empty D s.db h _ e;
                    }))
            ]
      ]

  pub store_run :
      (p : Text) (s : Storage D.State) (form : FormFile)
      → (ensure_dir f (slash c.storage.storage_dir path) s.disk).1 ≡ true
      → rq.form_file ≡ some form
      → store D J md5 c f p path rq s
        ≡ save_form D J md5 c f path
            (slash c.storage.storage_dir path)
            rq
            form
            (record s { disk = (ensure_dir f (slash c.storage.storage_dir path) s.disk).0 })
  unfolding store
  store_run p s form made sent = rw (store, made, sent)

  pub store-Settles : (p : Text) (s : Storage D.State) → Settles s (store D J md5 c f p path rq s)
  unfolding store
  store-Settles p s =
      let base = slash c.storage.storage_dir path in
      elim (Bool-cases (ensure_dir f base s.disk).1) [
        | inr failed ↦ rw failed (
            inr (record {
              status = fail-ne-success dir_create_fail (omega arith);
              headers = refl;
              db = refl;
            }))
        | inl made ↦ elim (Option-cases rq.form_file) [
          | inl absent ↦
              rw (made, absent)
                (inr (record {
                  status = fail-ne-success form_file_not_found (omega arith);
                  headers = refl;
                  db = refl;
                }))
          | inr (form, sent) ↦ subst (Settles s) (sym (store_run p s form made sent)) (
              save_form-Settles form s (ensure_dir f base s.disk).0 sent
                (ensure_dir-Grows f base s.disk))
        ]
      ]
