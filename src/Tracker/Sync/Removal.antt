-- ===== src/Tracker/Sync/Removal.antt =====
-- What a goroutine of a deletion leaves in the log.
use mathlib.Core.Bool.{false≢true}
use eggdfs.Base.{
  ◌≡◌, ◌∙◌, ◌++◌, refl, ap, Bool, false, ◌&&◌, not, inl, inr, ◌∷◌, Result, ok, ◌==◌, ==_iff, ◌⊎◌,
  ◌≢◌, err, sym, true, done, if◌then◌else◌, arith, Bool-cases,
}
use eggdfs.Base.Text.{Text, has_byte, text_eq}
use eggdfs.Common.Const.{success, storage_offline, sync_delete}
use eggdfs.Common.Json.{Json}
use eggdfs.Db.{LevelDb, IsLawful}
use eggdfs.Group.{StorageServer}
use eggdfs.Tracker.{Tracker}
use eggdfs.Tracker.Sync.{
  DeleteFile, sync_key, delete_accepted, log_failure, delete_info, delete_task,
}
use eggdfs.Tracker.Sync.Log.{put_quietly-get, log_failure-groups, log_failure-locked}
use eggdfs.Util.Paths.{parse_header_file_path_iff}

module _ (D : LevelDb) (J : Json) (law : IsLawful D) (server : StorageServer) (group : Text)
    (file : DeleteFile) (answer : Result Text Text) (t : Tracker D.State) (dir name : Text)
    (path : file.file ≡ dir ++ (b'/' ∷ name)) (clean : has_byte b'/' name ≡ false) where
  -- The server was asked, and its answer was a success.
  abbrev removed : Bool
  removed = not (server.status == storage_offline) && delete_accepted J answer

  abbrev log_it : Tracker D.State
  log_it = log_failure D J sync_delete (delete_info D J server group file dir name) t

  delete_task-cases :
      delete_task D J server group file answer t ≡ done (if removed then t else log_it)
  unfolding delete_task
  delete_task-cases =
      rw (delete_task, (parse_header_file_path_iff file.file dir name).1 (path, clean))
        (ground arith)

  -- The server is not offline, and it answered with a body that leaves the status of a success.
  pub record IsRemoved : Type 0 where
    pub asked : server.status ≢ storage_offline
    pub body : Text
    pub answered : answer ≡ ok body
    pub decoded : (J.unmarshal_resp body).1 ≡ success

  accepted-IsRemoved :
      (a : Result Text Text)
      → delete_accepted J a ≡ true
      → (body : Text) × (a ≡ ok body) × ((J.unmarshal_resp body).1 ≡ success)
  unfolding delete_accepted
  accepted-IsRemoved (err e) yes' = cc
  accepted-IsRemoved (ok body) yes' = (body, refl, (==_iff _ _).0 yes')

  IsRemoved-removed : IsRemoved → removed ≡ true
  unfolding delete_accepted
  IsRemoved-removed r =
      let up : (server.status == storage_offline) ≡ false = ground (arith, r.asked) in
      let fine : ((J.unmarshal_resp r.body).1 == success) ≡ true = (==_iff _ _).1 r.decoded in
      let said : delete_accepted J answer ≡ true = ap (delete_accepted J) r.answered ∙ fine in
      rw (up, said)

  removed-cases : ((removed ≡ true) × IsRemoved) ⊎ ((removed ≡ false) × (¬ IsRemoved))
  removed-cases = elim (Bool-cases removed) [
    | inr kept ↦ inr (kept, λ r. false≢true (sym kept ∙ IsRemoved-removed r))
    | inl gone ↦ elim (Bool-cases (server.status == storage_offline)) [
      | inl down ↦ cc (rw down at gone)
      | inr up ↦
          let (body, said, fine) = accepted-IsRemoved answer (rw up at gone) in
          inl (
            gone,
            record {
              asked = λ e. false≢true (sym up ∙ (==_iff _ _).1 e);
              body = body;
              answered = said;
              decoded = fine;
            },
          )
    ]
  ]

  -- Over a lawful database that takes the record, where the file is `dir/name` with no slash in
  -- `name`: the goroutine returns. The deletion was made exactly where the server is not offline and
  -- answered with a body that leaves the status of a success, and then no entry of the log changes.
  -- Else, so where the post failed, it is logged under the name and the action, and every other entry
  -- stays. The groups and the lock stay in both cases.
  pub delete_task_lem :
      (d : D.State)
      → D.put t.sync_db
          (sync_key name sync_delete)
          (J.marshal_sync (delete_info D J server group file dir name))
        ≡ ok d
      → (u : Tracker D.State) × (delete_task D J server group file answer t ≡ done u)
        × ((IsRemoved × ((j : Text) → D.get u.sync_db j ≡ D.get t.sync_db j))
            ⊎ ((¬ IsRemoved)
                × ((j : Text)
                    → D.get u.sync_db j ≡ (
                        if text_eq (sync_key name sync_delete) j
                        then ok (J.marshal_sync (delete_info D J server group file dir name))
                        else D.get t.sync_db j))))
        × (u.groups ≡ t.groups)
        × (u.locked ≡ t.locked)
  unfolding delete_info
  delete_task_lem d e =
      let info = delete_info D J server group file dir name in
      elim removed-cases [
        | inl (gone, r) ↦ (t, delete_task-cases ∙ rw gone, inl (r, λ j. refl), refl, refl)
        | inr (kept, r) ↦ (
          log_it,
          delete_task-cases ∙ rw kept,
          inr (
            r,
            λ j.
                ap (λ z. D.get z j) (put_quietly-get D J law info t sync_delete d e)
                ∙ law.get-put t.sync_db d _ _ j e,
          ),
          log_failure-groups D J law info t sync_delete,
          log_failure-locked D J law info t sync_delete,
        )
      ]
