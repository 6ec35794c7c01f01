-- ===== src/Tracker/Reach.antt =====
-- The tracker as a whole: its state under any sequence of requests, answers and goroutines. A step
-- is one handler, one goroutine or one run of the repair job, from its first to its last write.
use eggdfs.Base.{
  ℕ, ◌≡◌, inl, inr, refl, sym, ap, ◌∙◌, subst, Option, List, done, Result, panic-ne-done,
  done-injective,
}
use eggdfs.Base.Text.{Text}
use eggdfs.Base.Visit.{Visit}
use eggdfs.Common.Json.{Json}
use eggdfs.Common.Model.{SyncFileInfo}
use eggdfs.Db.{LevelDb}
use eggdfs.Group.{StorageServer, Group}
use eggdfs.Tracker.{Tracker, IsSound, IsSound_of_SameGroups}
use eggdfs.Tracker.Construct.{new_tracker}
use eggdfs.Tracker.Proxy.{Proxied}
use eggdfs.Tracker.Query.{Fetched, download}
use eggdfs.Tracker.Query.Laws.{download_lem}
use eggdfs.Tracker.Repair.{repair_sync_fail}
use eggdfs.Tracker.Repair.Crash.{repair_sync_fail-SameGroups}
use eggdfs.Tracker.Sync.Log.{sync_file-SameGroups, delete_task-SameGroups}
use eggdfs.Tracker.Report.{Params, storage_status_report}
use eggdfs.Tracker.Report.Effect.{report_sound}
use eggdfs.Tracker.Sync.{DeleteFile, sync_file, delete_task}
use eggdfs.Tracker.Upload.{SyncTask, Reply, quick_upload}
use eggdfs.Tracker.Upload.Total.{quick_upload_lem}

module _ (D : LevelDb) (J : Json) where
  -- The sorts of events. Each carries what the environment chose: orders of maps, times, answers.
  pub data Step (t u : Tracker D.State) : Type 0 where
    report :
        (v : Visit StorageServer) (now later : ℕ) (p : Params)
        → storage_status_report v now later p t ≡ done u
        → Step t u
    upload :
        (vg : Visit Group) (v : Visit StorageServer) (hash : Text → ℕ) (parse : Text → Option Text)
        (schema ip uuid : Text) (p : Proxied) (r : Reply) (tasks : List SyncTask)
        → quick_upload vg v hash parse schema ip uuid p t ≡ done (r, tasks, u)
        → Step t u
    copy :
        (sm : StorageServer) (info : SyncFileInfo) (answer : Result Text Text)
        → sync_file D J sm info answer t ≡ u
        → Step t u
    remove_file :
        (server : StorageServer) (group : Text) (file : DeleteFile) (answer : Result Text Text)
        → delete_task D J server group file answer t ≡ done u
        → Step t u
    fetch :
        (v : Visit StorageServer) (hash : Text → ℕ) (parse : Text → Option Text) (name ip : Text)
        (p : Proxied) (f : Fetched)
        → download v hash parse name ip p t ≡ done (f, u)
        → Step t u
    repair :
        (post : Text → SyncFileInfo → Result Text Text)
        → repair_sync_fail D J post t ≡ done u
        → Step t u

  pub data Reach (t : Tracker D.State) : Tracker D.State → Type 0 where
    here : Reach t t
    next : {u w : Tracker D.State} → Reach t u → Step u w → Reach t w

  Step-IsSound : {t u : Tracker D.State} → Step t u → IsSound t → IsSound u
  Step-IsSound {t} {u} (report v now later p e) sound =
      let (w, run, sound') = report_sound v now later p t sound in
      subst IsSound (done-injective w u (sym run ∙ e)) sound'
  Step-IsSound {t} {u} (upload vg v hash parse schema ip uuid p r tasks e) sound =
      elim (quick_upload_lem v p t sound parse schema uuid vg hash ip) [
        | inl (r', tasks', w, run, sound', db) ↦
            subst IsSound
              (ap (λ (z : Reply × List SyncTask × Tracker D.State). z.2)
                (done-injective (r', tasks', w) (r, tasks, u) (sym run ∙ e)))
              sound'
        | inr (bad, path) ↦ absurd (panic-ne-done (r, tasks, u) (sym bad ∙ e))
      ]
  Step-IsSound {t} {u} (copy sm info answer e) sound =
      subst IsSound e (IsSound_of_SameGroups t _ sound (sync_file-SameGroups D J sm answer info t))
  Step-IsSound {t} {u} (remove_file server group file answer e) sound =
      IsSound_of_SameGroups t u sound (delete_task-SameGroups D J server answer group file t u e)
  Step-IsSound {t} {u} (fetch v hash parse name ip p f e) sound =
      elim (download_lem parse p t sound v hash name ip) [
        | inl (f', w, run, sound', db) ↦
            subst IsSound
              (ap (λ (z : Fetched × Tracker D.State). z.1)
                (done-injective (f', w) (f, u) (sym run ∙ e)))
              sound'
        | inr (bad, broken) ↦ absurd (panic-ne-done (f, u) (sym bad ∙ e))
      ]
  Step-IsSound {t} {u} (repair post e) sound =
      IsSound_of_SameGroups t u sound (repair_sync_fail-SameGroups D J post t u e)

  new_tracker-IsSound : (d : D.State) → IsSound (new_tracker d)
  unfolding new_tracker
  new_tracker-IsSound d = record { distinct = tt; entries = tt; unlocked = refl }

  -- Whatever requests, answers, goroutines and repair jobs came before, a tracker is sound: names
  -- and addresses are unique and each group and storage stands under its own, no lock is held, and
  -- the next report returns.
  pub Reach-IsSound :
      (d : D.State) (t : Tracker D.State)
      → Reach (new_tracker d) t
      → IsSound t
        × ((v : Visit StorageServer) (now later : ℕ) (p : Params)
            → (w : Tracker D.State) × (storage_status_report v now later p t ≡ done w))
  Reach-IsSound d t r = (
    reached r,
    λ v now later p. let (w, run, sound') = report_sound v now later p t (reached r) in (w, run),
  )
    where
      reached : {u : Tracker D.State} → Reach (new_tracker d) u → IsSound u
      reached here = new_tracker-IsSound d
      reached (next r s) = Step-IsSound s (reached r)
