-- ===== src/Tracker/Sync/Log.antt =====
-- What the log of failed synchronisations holds.
use mathlib.Core.Bool.{false≢true}
use eggdfs.Base.{
  ℕ, ◌≡◌, ◌≢◌, refl, sym, ap, ◌∙◌, Bool, true, false, ◌&&◌, [], ◌∷◌, ◌++◌, done, panic, Result, ok,
  ◌==◌, ==_iff, ◌⊎◌, err, ap₂, if◌then◌else◌, arith, Bool-cases, inl, inr, panic-ne-done,
}
use eggdfs.Base.Text.{Text, text_eq, text_eq_iff, has_byte, bytes}
use eggdfs.Common.Const.{success, storage_active}
use eggdfs.Common.Model.{SyncFileInfo}
use eggdfs.Common.Json.{Json}
use eggdfs.Db.{LevelDb, IsLawful, put, put_quietly}
use eggdfs.Group.{StorageServer}
use eggdfs.Tracker.{Tracker, SameGroups}
use eggdfs.Tracker.Sync.{
  DeleteFile, sync_key, at_sign, sync_accepted, log_failure, sync_file, delete_task,
}
use eggdfs.Util.Paths.{parse_header_file_path-panic, parse_header_file_path-cases}

if_if {ℓ} :
    {A : Type ℓ} (x y z : A) (b : Bool)
    → (if b then x else if b then y else z) ≡ (if b then x else z)
if_if x y z true = refl
if_if x y z false = refl

append-ne-nil : (s : Text) (c : ℕ) (t : Text) → s ++ (c ∷ t) ≢ []
append-ne-nil [] c t e = cc
append-ne-nil (a ∷ s) c t e = cc

sync_key-ne-nil : (name action : Text) → sync_key name action ≢ []
unfolding sync_key at_sign bytes
sync_key-ne-nil name action = append-ne-nil name _ action

module _ (D : LevelDb) (J : Json) (law : IsLawful D) (info : SyncFileInfo)
    (t : Tracker D.State) where
  -- The copy was made: the server was active, and its answer was a success.
  abbrev delivered : StorageServer → Result Text Text → Bool
  delivered sm answer = (sm.status == storage_active) && sync_accepted J answer

  pub put_quietly-get :
      (action : Text) (d : D.State)
      → D.put t.sync_db (sync_key info.file_name action) (J.marshal_sync info) ≡ ok d
      → (log_failure D J action info t).sync_db ≡ d
  unfolding log_failure put_quietly put
  put_quietly-get action d e = ground (
    arith,
    text_eq_iff (sync_key info.file_name action) [],
    sync_key-ne-nil info.file_name action,
  )

  pub log_failure-groups : (action : Text) → (log_failure D J action info t).groups ≡ t.groups
  unfolding log_failure
  log_failure-groups action = refl

  pub log_failure-locked : (action : Text) → (log_failure D J action info t).locked ≡ t.locked
  unfolding log_failure
  log_failure-locked action = refl

  sync_file-cases :
      (sm : StorageServer) (answer : Result Text Text)
      → sync_file D J sm info answer t
        ≡ (if delivered sm answer then t else log_failure D J info.action info t)
  unfolding sync_file
  sync_file-cases sm answer = ground arith

  -- The log afterwards, by the test of the code.
  sync_file_log :
      (sm : StorageServer) (answer : Result Text Text) (d : D.State)
      → D.put t.sync_db (sync_key info.file_name info.action) (J.marshal_sync info) ≡ ok d
      → ((j : Text)
          → D.get (sync_file D J sm info answer t).sync_db j ≡ (
              if delivered sm answer
              then D.get t.sync_db j
              else if text_eq (sync_key info.file_name info.action) j
              then ok (J.marshal_sync info)
              else D.get t.sync_db j))
        × ((sync_file D J sm info answer t).groups ≡ t.groups)
        × ((sync_file D J sm info answer t).locked ≡ t.locked)
  sync_file_log sm answer d e = elim (Bool-cases (delivered sm answer)) [
    | inl made ↦
        let q : sync_file D J sm info answer t ≡ t = sync_file-cases sm answer ∙ rw made in
        (
          (λ j. ap (λ (u : Tracker D.State). D.get u.sync_db j) q ∙ rw made),
          ap (λ (u : Tracker D.State). u.groups) q,
          ap (λ (u : Tracker D.State). u.locked) q,
        )
    | inr not_made ↦
        let q : sync_file D J sm info answer t ≡ log_failure D J info.action info t =
          sync_file-cases sm answer ∙ rw not_made in
        (
          (λ j.
              ap (λ (u : Tracker D.State). D.get u.sync_db j) q
              ∙ ap (λ z. D.get z j) (put_quietly-get info.action d e)
              ∙ law.get-put t.sync_db d _ _ j e
              ∙ rw not_made),
          ap (λ (u : Tracker D.State). u.groups) q ∙ log_failure-groups info.action,
          ap (λ (u : Tracker D.State). u.locked) q ∙ log_failure-locked info.action,
        )
  ]

  -- The server is active, and it answered with a body that is not empty and decodes without an error
  -- to the status of a success.
  pub record IsMade (sm : StorageServer) (answer : Result Text Text) : Type 0 where
    pub active : sm.status ≡ storage_active
    pub body : Text
    pub answered : answer ≡ ok body
    pub filled : body ≢ []
    pub decoded : J.unmarshal_resp body ≡ (false, success)

  accepted-cases :
      (sm : StorageServer) (answer : Result Text Text)
      → sm.status ≡ storage_active
      → sync_accepted J answer ≡ true
      → IsMade sm answer
  unfolding sync_accepted
  accepted-cases sm (err e) up yes' = cc
  accepted-cases sm (ok []) up yes' = cc
  accepted-cases sm (ok (c ∷ body)) up yes' = record {
    active = up;
    body = c ∷ body;
    answered = refl;
    filled = λ e. cc;
    decoded = elim (Bool-cases (J.unmarshal_resp (c ∷ body)).0) [
      | inl failed ↦ cc (rw failed at yes')
      | inr fine ↦ ap₂ (λ (b : Bool) (n : ℕ). (b, n)) fine ((==_iff _ _).0 (rw fine at yes'))
    ];
  }

  decoded-accepted :
      (body : Text)
      → body ≢ []
      → J.unmarshal_resp body ≡ (false, success)
      → sync_accepted J (ok body) ≡ true
  unfolding sync_accepted
  decoded-accepted [] filled e = absurd (filled refl)
  decoded-accepted (c ∷ body) filled e = rw e ((==_iff success success).1 refl)

  IsMade-accepted :
      (sm : StorageServer) (answer : Result Text Text)
      → IsMade sm answer
      → delivered sm answer ≡ true
  IsMade-accepted sm answer made =
      let up : (sm.status == storage_active) ≡ true = (==_iff _ _).1 made.active in
      rw up
        (ap (sync_accepted J) made.answered ∙ decoded-accepted made.body made.filled made.decoded)

  delivered-cases :
      (sm : StorageServer) (answer : Result Text Text)
      → ((delivered sm answer ≡ true) × IsMade sm answer)
        ⊎ ((delivered sm answer ≡ false) × (¬ IsMade sm answer))
  delivered-cases sm answer = elim (Bool-cases (delivered sm answer)) [
    | inr no_copy ↦ inr (no_copy, λ made. false≢true (sym no_copy ∙ IsMade-accepted sm answer made))
    | inl copied ↦ elim (Bool-cases (sm.status == storage_active)) [
      | inl up ↦ inl (copied, accepted-cases sm answer ((==_iff _ _).0 up) (rw up at copied))
      | inr down ↦ cc (rw down at copied)
    ]
  ]

  -- Over a lawful database that takes the record: a copy was made exactly where the server is active
  -- and answered with a body that is not empty and decodes to a success, and then no entry of the log
  -- changes. Else it is logged under the file's name and action, and every other entry stays: so it is
  -- where the post failed, the answer is empty or does not decode, or it has another status. The groups
  -- and the lock stay in both cases.
  pub sync_file_lem :
      (sm : StorageServer) (answer : Result Text Text) (d : D.State)
      → D.put t.sync_db (sync_key info.file_name info.action) (J.marshal_sync info) ≡ ok d
      → ((IsMade sm answer
            × ((j : Text) → D.get (sync_file D J sm info answer t).sync_db j ≡ D.get t.sync_db j))
          ⊎ ((¬ IsMade sm answer)
              × ((j : Text)
                  → D.get (sync_file D J sm info answer t).sync_db j ≡ (
                      if text_eq (sync_key info.file_name info.action) j
                      then ok (J.marshal_sync info)
                      else D.get t.sync_db j))))
        × ((sync_file D J sm info answer t).groups ≡ t.groups)
        × ((sync_file D J sm info answer t).locked ≡ t.locked)
  sync_file_lem sm answer d e =
      let (entries, groups, locked) = sync_file_log sm answer d e in
      (
        elim (delivered-cases sm answer) [
          | inl (copied, made) ↦ inl (made, λ j. entries j ∙ rw copied)
          | inr (no_copy, unmade) ↦ inr (unmade, λ j. entries j ∙ rw no_copy)
        ],
        groups,
        locked,
      )

module _ (D : LevelDb) (J : Json) (server : StorageServer) (group : Text) (file : DeleteFile)
    (t : Tracker D.State) (answer : Result Text Text) where
  -- A path without a slash makes every goroutine of `Delete` panic, whatever the server's status
  -- and answer are.
  pub delete_task_panic :
      has_byte b'/' file.file ≡ false → delete_task D J server group file answer t ≡ panic
  unfolding delete_task
  delete_task_panic clean = rw ((parse_header_file_path-panic file.file).1 clean)

-- The log keeps one record for a file and an action, whatever the destination: of two copies that
-- were not made, for one file and action, a lawful database that takes both records holds only the
-- second afterwards, and every other entry as before.
pub sync_file_overwrites :
    (D : LevelDb) (J : Json)
    → IsLawful D
    → (first second : SyncFileInfo) (a b : StorageServer) (answer answer' : Result Text Text)
      (t : Tracker D.State) (d d' : D.State)
    → second.file_name ≡ first.file_name
    → second.action ≡ first.action
    → ((a.status == storage_active) && sync_accepted J answer) ≡ false
    → ((b.status == storage_active) && sync_accepted J answer') ≡ false
    → D.put t.sync_db (sync_key first.file_name first.action) (J.marshal_sync first) ≡ ok d
    → D.put
        (sync_file D J a first answer t).sync_db
        (sync_key second.file_name second.action)
        (J.marshal_sync second)
      ≡ ok d'
    → (j : Text)
    → D.get (sync_file D J b second answer' (sync_file D J a first answer t)).sync_db j ≡ (
        if text_eq (sync_key first.file_name first.action) j
        then ok (J.marshal_sync second)
        else D.get t.sync_db j)
sync_file_overwrites D J law first second a b answer answer' t d d' name action missed missed' e e'
      j =
    let one = (sync_file_log D J law first t a answer d e).0 j in
    let two = (sync_file_log D J law second (sync_file D J a first answer t) b answer' d' e').0 j in
    two
    ∙ rw (missed', name, action, one, missed)
        (if_if _ _ _ (text_eq (sync_key first.file_name first.action) j))

-- A copy or a deletion that was tried touches the log alone.
module _ (D : LevelDb) (J : Json) (sm : StorageServer) (answer : Result Text Text) where
  pub sync_file-SameGroups :
      (info : SyncFileInfo) (t : Tracker D.State) → SameGroups t (sync_file D J sm info answer t)
  unfolding sync_file
  sync_file-SameGroups info t = (ground arith, ground arith)

  pub delete_task-SameGroups :
      (group : Text) (file : DeleteFile) (t u : Tracker D.State)
      → delete_task D J sm group file answer t ≡ done u
      → SameGroups t u
  unfolding delete_task
  delete_task-SameGroups group file t u e = elim (parse_header_file_path-cases file.file) [
    | inr clean ↦
        absurd (panic-ne-done u (sym (delete_task_panic D J sm group file t answer clean) ∙ e))
    | inl (dir, name, q) ↦ (ground (arith, q), ground (arith, q))
  ]
