-- ===== src/Storage/Effects/Syncs.antt =====
-- A copy and a deletion keep what their calls keep.
use eggdfs.Base.{
  ◌≡◌, ap, ◌∙◌, subst, inl, inr, Option, none, some, done, Bool-cases, Option-cases, panic-ne-done,
  done-injective, ◌==◌, length, not, ◌||◌, Outcome,
}
use eggdfs.Base.Text.{Text, text_eq}
use eggdfs.Common.Const.{sync_add, sync_delete}
use eggdfs.Common.Json.{Json}
use eggdfs.Common.Model.{SyncFileInfo}
use eggdfs.Conf.{GlobalConfig}
use eggdfs.Db.{LevelDb}
use eggdfs.Disk.{Disk, Faults, stat, create, copied, copy_into, remove_path}
use eggdfs.Storage.{Storage, slash}
use eggdfs.Storage.Download.Laws.{slash_assoc}
use eggdfs.Storage.Sync.{
  Response, Synced, record_copy, write_copy, fetch_copy, sync_file_add, sync_file_delete, sync,
}
use eggdfs.Storage.Upload.{ensure_dir}
use eggdfs.Storage.Effects.{Closed, created_keeps, sync_path}

module _ (D : LevelDb) (J : Json) (c : GlobalConfig) (f : Faults) (P : Disk → Type 0) where
  -- The disk that an outcome leaves, if it leaves one.
  abbrev After : Outcome (Synced × Storage D.State) → Type 0
  After o = (r : Synced) (s' : Storage D.State) → o ≡ done (r, s') → P s'.disk

  done-After : (r : Synced) (s : Storage D.State) → P s.disk → After (done (r, s))
  done-After r s h r' s' e =
      subst (λ (z : Synced × Storage D.State). P z.1.disk) (done-injective (r, s) (r', s') e) h

  module _ (info : SyncFileInfo) (closed : Closed (sync_path c info) P) where
    record_copy_keeps :
        (content : Text) (s : Storage D.State)
        → P s.disk
        → After (record_copy D J c f info (sync_path c info) content s)
    unfolding record_copy
    record_copy_keeps content s h = elim (Bool-cases (stat f (sync_path c info) s.disk)) [
      | inl there ↦ rw (record_copy, there) (done-After _ _ h)
      | inr missing ↦ rw (record_copy, missing) (λ r s' e. absurd (panic-ne-done _ e))
    ]

    write_copy_keeps :
        (body : Text) (s : Storage D.State)
        → P s.disk
        → After (write_copy D J c f info (sync_path c info) body s)
    unfolding write_copy copy_into
    write_copy_keeps body s h =
        let q = sync_path c info in
        elim (Bool-cases (not (copy_into f q body s.disk).1 || length (copied f body) == 0)) [
          | inl failed ↦ rw (write_copy, failed) (done-After _ _ (closed.written _ s.disk h))
          | inr fine ↦ rw (write_copy, fine) (record_copy_keeps _ _ (closed.written _ s.disk h))
        ]

    fetch_copy_keeps :
        (got : Option Response) (s : Storage D.State)
        → P s.disk
        → After (fetch_copy D J c f info (slash c.storage.storage_dir info.file_path) got s)
    unfolding fetch_copy sync_path
    fetch_copy_keeps none s h = done-After _ _ h
    fetch_copy_keeps (some resp) s h = elim (Option-cases (create f (sync_path c info) s.disk)) [
      | inl refused ↦ rw (fetch_copy, refused) (done-After _ _ h)
      | inr (d, made) ↦
          rw (fetch_copy, made)
            (write_copy_keeps resp.body (record s { disk = d })
              (created_keeps (sync_path c info) P closed f s.disk d made h))
    ]

    sync_file_add_keeps :
        (got : Option Response) (s : Storage D.State)
        → P s.disk
        → After (sync_file_add D J c f info got s)
    unfolding sync_file_add
    sync_file_add_keeps got s h =
        let base = slash c.storage.storage_dir info.file_path in
        elim (Bool-cases (ensure_dir f base s.disk).1) [
          | inl made ↦
              rw (sync_file_add, made) (fetch_copy_keeps got _ (closed.made f base s.disk h))
          | inr failed ↦ rw (sync_file_add, failed) (done-After _ _ (closed.made f base s.disk h))
        ]

    same_path :
        (s : Storage D.State)
        → remove_path f (sync_path c info) s.disk
          ≡ remove_path f (slash c.storage.storage_dir (slash info.file_path info.file_name)) s.disk
    unfolding sync_path
    same_path s =
        ap (λ z. remove_path f z s.disk)
          (slash_assoc c.storage.storage_dir info.file_path info.file_name)

    sync_file_delete_keeps :
        (s : Storage D.State) → P s.disk → P (sync_file_delete D J c f info s).1.disk
    unfolding sync_file_delete
    sync_file_delete_keeps s h =
        let q = slash c.storage.storage_dir (slash info.file_path info.file_name) in
        elim (Bool-cases (stat f q s.disk)) [
          | inr missing ↦ rw (sync_file_delete, missing) h
          | inl there ↦ elim (Option-cases (remove_path f q s.disk)) [
            | inl kept ↦ rw (sync_file_delete, there, kept) h
            | inr (d, gone) ↦
                rw (sync_file_delete, there, gone)
                  (closed.removed f s.disk d (same_path s ∙ gone) h)
          ]
        ]

    pub sync_keeps :
        (got : Option Response) (s : Storage D.State) → P s.disk → After (sync D J c f info got s)
    unfolding sync
    sync_keeps got s h = elim (Bool-cases (text_eq info.action sync_delete)) [
      | inl delete ↦ rw (sync, delete) (done-After _ _ (sync_file_delete_keeps s h))
      | inr other ↦ elim (Bool-cases (text_eq info.action sync_add)) [
        | inl add ↦ rw (sync, other, add) (sync_file_add_keeps got s h)
        | inr unknown ↦ rw (sync, other, unknown) (done-After _ _ h)
      ]
    ]
