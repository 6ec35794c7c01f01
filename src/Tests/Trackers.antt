-- ===== src/Tests/Trackers.antt =====
-- Trackers: what is reachable, and reports.
use mathlib.Core.Option
use eggdfs.Base.{
  ◌↔◌, List, ℕ, arith, ◌≡◌, ◌≢◌, refl, Option, none, some, List, [], ◌∷◌, Outcome, done, Result, ok,
  err, ◌⊎◌, ◌&&◌, false, if◌then◌else◌,
}
use eggdfs.Base.Dict.{insert, lookup}
use eggdfs.Base.Text.{Text, text_eq, join_host_port}
use eggdfs.Base.Visit.{Visit, forwards, backwards}
use eggdfs.Common.Json.{Json}
use eggdfs.Common.Model.{FileInfo, SyncFileInfo}
use eggdfs.Db.Memory.{memory, no_entries}
use eggdfs.Group.{StorageServer, Group, get_storage}
use eggdfs.Group.Sweep.Laws.{expire}
use eggdfs.Tests.{group_name, http, addr_a, node_a, pair}
use eggdfs.Tests.Groups.{pair-IsWell}
use eggdfs.Tracker.{Tracker, IsSound, get_group}
use eggdfs.Tracker.Reach.{here, next, report, Reach-IsSound}
use eggdfs.Tracker.Construct.{new_tracker}
use eggdfs.Tracker.Report.{Params, storage_status_report, reported}
use eggdfs.Tracker.Report.Servers.{server_at}
use eggdfs.Tracker.Report.Effect.{IsAccepted, report_accepted}
use eggdfs.Tracker.Report.Laws.{Settled}
use eggdfs.Tracker.{get_groups}

-- A log of one known record: every byte string but the empty one decodes to it.
abbrev pub empty_info : SyncFileInfo
empty_info = record {
  src = [];
  dst = [];
  file_id = [];
  file_path = [];
  file_name = [];
  file_hash = [];
  action = [];
  group = [];
}

abbrev pub empty_file : FileInfo
empty_file = record {
  file_id = [];
  name = [];
  rename = [];
  url = [];
  path = [];
  md5 = [];
  size = 0;
  group = [];
}

abbrev pub json : Json
json = record {
  marshal_sync = λ info. b'{' ∷ [];
  unmarshal_sync = λ s. some empty_info;
  marshal_file = λ info. b'{' ∷ [];
  unmarshal_file = λ s. empty_file;
  unmarshal_resp = λ s. (false, 20000);
}

abbrev pub tracker_of : {S : Type 0} → S → Group → Tracker S
tracker_of d g = record { groups = (group_name, g) ∷ []; sync_db = d; locked = false }

pub tracker_of-IsSound : {S : Type 0} (d : S) → IsSound (tracker_of d pair)
unfolding lookup
tracker_of-IsSound d = record {
  distinct = (refl, tt);
  entries = ((refl, (λ e. cc), pair-IsWell), tt);
  unlocked = refl;
}

abbrev pub calm : Tracker ℕ
calm = tracker_of 7 pair

pub calm-IsSound : IsSound calm
calm-IsSound = tracker_of-IsSound 7

-- A report from a new server at port 1 of the host `a`, with room enough.
abbrev params : Params
params = record {
  group = group_name;
  http_schema = http;
  host = b'a' ∷ [];
  port = b'1' ∷ [];
  free = 300000;
}

params-IsAccepted : IsAccepted params
params-IsAccepted = record { port = λ e. cc; host = λ e. cc; group = λ e. cc }

abbrev with_a : Tracker memory.State
with_a = tracker_of no_entries (record {
  name = group_name;
  status = 1;
  cap = 300000;
  storages = (addr_a, node_a) ∷ [];
  readers = 0;
})

first_report : storage_status_report backwards 100 101 params (new_tracker no_entries) ≡ done with_a
unfolding storage_status_report new_tracker text_eq eggdfs.Tracker.is_exist_group lookup
    eggdfs.Group.save_or_update_storage join_host_port eggdfs.Tracker.register_group get_group
    insert eggdfs.Group.Sweep.refresh_group eggdfs.Group.storage_keys eggdfs.Base.Sort.sort_strings
    eggdfs.Base.Dict.values eggdfs.Group.get_group_cap
first_report = refl

Reach-IsSound_example :
    IsSound with_a
    × ((v : Visit StorageServer) (now later : ℕ) (p : Params)
        → (w : Tracker memory.State) × (storage_status_report v now later p with_a ≡ done w))
Reach-IsSound_example =
    Reach-IsSound memory json no_entries with_a
      (next here (report backwards 100 101 params first_report))

report_accepted_example :
    (w : Tracker ℕ) × (storage_status_report forwards 200 201 params calm ≡ done w)
    × IsSound w
    × ((n k : Text)
        → server_at n k w
          ≡ Option.map (expire 201) (
              if text_eq group_name n && text_eq (join_host_port (b'a' ∷ []) (b'1' ∷ [])) k
              then some (reported 200 params)
              else server_at n k calm))
    × ((n : Text) (g : Group) → get_group n w ≡ some g → Settled 201 g)
    × (w.sync_db ≡ 7)
report_accepted_example =
    report_accepted forwards 200 201 params calm calm-IsSound params-IsAccepted
