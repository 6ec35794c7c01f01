-- ===== src/Cluster/Reports.antt =====
-- The reports of a storage make uploads to it possible.
use mathlib.Core.List.{Mem, mem-map}
use mathlib.Core.Logic.{∥∥₁_elim}
use eggdfs.Base.{ℕ, ◌+◌, ◌≤◌, ◌<◌, ◌≡◌, ◌≢◌, sym, ap, ◌∙◌, some, [], done, ok}
use eggdfs.Base.Text.{Text, join_host_port, Text-set}
use native.Mathlib.Nat.{ℕ_set}
use eggdfs.Base.Visit.{Visit}
use eggdfs.Cluster.{params_of}
use eggdfs.Common.Const.{min_storage_space, group_active}
use eggdfs.Conf.{GlobalConfig}
use eggdfs.Group.{StorageServer, Group}
use eggdfs.Storage.{Storage, StorageStatus, status_reports}
use eggdfs.Tracker.{Tracker, IsSound}
use eggdfs.Tracker.Report.{reported, storage_status_report}
use eggdfs.Tracker.Report.Available.{Serves, report_then_upload}
use eggdfs.Tracker.Report.Servers.{server_at}
use eggdfs.Tracker.Select.{select_group_for_upload}

StorageStatus-set : IsSet StorageStatus
StorageStatus-set = hlevel (ℕ_set, Text-set)

module _ {S : Type 0} (c : GlobalConfig) (n : ℕ) (s : Storage S) where
  -- What every report says.
  abbrev pub told : StorageStatus
  told = record {
    group = c.storage.group;
    http_schema = s.http_schema;
    host = c.host;
    port = c.port;
    free = n;
  }

  status_reports-told :
      (url : Text) (r : StorageStatus) → Mem (url, r) (status_reports c (some n) s) → r ≡ told
  unfolding status_reports
  status_reports-told url r m =
      ∥∥₁_elim (mem-map.0 m) (StorageStatus-set _ _)
        (λ (a, i, e). ap (λ (z : Text × StorageStatus). z.1) (sym e))

  -- A storage with a group, a host and a port that has more free space than the minimum: once any one
  -- of its reports arrives at a sound tracker, which computes the status within 50 seconds, the storage
  -- stands there as reported, and an upload from any client finds an active group, and in it an active
  -- storage.
  pub report_enables_upload :
      {T : Type 0} (v : Visit StorageServer) (now later : ℕ) (t : Tracker T) (sound : IsSound t)
      (url : Text) (r : StorageStatus)
      → Mem (url, r) (status_reports c (some n) s)
      → c.storage.group ≢ []
      → c.host ≢ []
      → c.port ≢ []
      → min_storage_space < n
      → later ≤ now + 50
      → (w : Tracker T) × (storage_status_report v now later (params_of r) t ≡ done w)
        × (server_at c.storage.group (join_host_port c.host c.port) w
            ≡ some (reported now (params_of r)))
        × ((vg : Visit Group) (vs : Visit StorageServer) (hash : Text → ℕ) (ip : Text)
            → (g : Group) × (select_group_for_upload vg w ≡ ok g)
              × (g.status ≡ group_active)
              × Serves vs hash ip g)
  unfolding params_of
  report_enables_upload v now later t sound url r m group host port roomy soon =
      let e = status_reports-told url r m in
      let (w, run, here, uploads) =
        report_then_upload v now later (params_of told) t sound
          (record { port = port; host = host; group = group }) roomy soon in
      (
        w,
        ap (λ z. storage_status_report v now later (params_of z) t) e ∙ run,
        here ∙ ap (λ z. some (reported now (params_of z))) (sym e),
        uploads,
      )
