-- ===== src/Tracker/Report/Effect.antt =====
-- The handler of /status as a whole.
use mathlib.Core.Option
use eggdfs.Base.{
  ℕ, ◌≡◌, ◌≢◌, false, inl, inr, ◌&&◌, ◌||◌, some, true, [], ◌∷◌, done, if◌then◌else◌, arith,
  Bool-cases,
}
use eggdfs.Base.Text.{Text, text_eq, text_eq_iff, join_host_port}
use eggdfs.Base.Visit.{Visit}
use eggdfs.Group.{StorageServer, Group}
use eggdfs.Group.Sweep.Laws.{expire}
use eggdfs.Tracker.{Tracker, IsSound, get_group}
use eggdfs.Tracker.Report.{Params, reported, ensure_group, report_locked, storage_status_report}
use eggdfs.Tracker.Report.Laws.{Settled}
use eggdfs.Tracker.Report.Servers.{server_at}
use eggdfs.Tracker.Report.Accepted.{ensure_group_lem, report_locked_lem}

join_host_port-ne-nil : (h p : Text) → join_host_port h p ≢ []
unfolding join_host_port
join_host_port-ne-nil [] p e = ground arith
join_host_port-ne-nil (c ∷ h) p e = ground arith

-- The handler goes past its checks.
pub record IsAccepted (p : Params) : Type 0 where
  pub port : p.port ≢ []
  pub host : p.host ≢ []
  pub group : p.group ≢ []

checks-IsAccepted :
    (p : Params)
    → (text_eq p.port [] || text_eq p.host [] || text_eq p.group []) ≡ false
    → IsAccepted p
checks-IsAccepted p h =
    ground (arith, text_eq_iff p.port [], text_eq_iff p.host [], text_eq_iff p.group [])

module _ {S : Type 0} (v : Visit StorageServer) (now later : ℕ) (p : Params) (t : Tracker S)
    (sound : IsSound t) where
  passed_checks :
      IsAccepted p
      → (u w : Tracker S) → ensure_group (reported now p) (record t { locked = true }) ≡ done u
      → report_locked v later (reported now p) u ≡ done w
      → storage_status_report v now later p t ≡ done w
  unfolding storage_status_report
  passed_checks a u w begun fin = ground (
    arith,
    text_eq_iff p.port [],
    text_eq_iff p.host [],
    text_eq_iff p.group [],
    a.port,
    a.host,
    a.group,
    sound.unlocked,
  )

  -- A report with a host, a port and a group, to a sound tracker, returns with the lock released
  -- and the tracker sound. The reported server stands under its group and address, every other
  -- server keeps its place, and those that are active and stale by then are offline. Every group
  -- has the status and the capacity that fit its servers.
  pub report_accepted :
      IsAccepted p
      → (w : Tracker S) × (storage_status_report v now later p t ≡ done w)
        × IsSound w
        × ((n k : Text)
            → server_at n k w
              ≡ Option.map (expire later) (
                  if text_eq p.group n && text_eq (join_host_port p.host p.port) k
                  then some (reported now p)
                  else server_at n k t))
        × ((n : Text) (g : Group) → get_group n w ≡ some g → Settled later g)
        × (w.sync_db ≡ t.sync_db)
  unfolding storage_status_report reported get_group
  report_accepted a =
      let sm = reported now p in
      let addressed : sm.addr ≢ [] = join_host_port-ne-nil p.host p.port in
      let (u, begun, en) =
        ensure_group_lem sm (record t { locked = true }) sound.distinct sound.entries addressed
          a.group in
      let (w, fin, sound', servers, settled, db) =
        report_locked_lem sm (record t { locked = true }) sound.distinct sound.entries addressed
          a.group v later u en in
      (w, passed_checks a u w begun fin, sound', servers, settled, db)

  -- A report without a host, a port or a group changes nothing.
  report_refused :
      (text_eq p.port [] || text_eq p.host [] || text_eq p.group []) ≡ true
      → storage_status_report v now later p t ≡ done t
  unfolding storage_status_report
  report_refused h = ground arith

  -- Any report at all to a sound tracker returns, and leaves it sound: the lock is released and
  -- nothing blocks or panics.
  pub report_sound : (w : Tracker S) × (storage_status_report v now later p t ≡ done w) × IsSound w
  report_sound = elim (Bool-cases (text_eq p.port [] || text_eq p.host [] || text_eq p.group [])) [
    | inl refused ↦ (t, report_refused refused, sound)
    | inr fine ↦
        let (w, run, sound', servers, settled, db) = report_accepted (checks-IsAccepted p fine) in
        (w, run, sound')
  ]
