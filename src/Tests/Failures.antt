-- ===== src/Tests/Failures.antt =====
-- The log, a deletion and the repair job.
use mathlib.Core.List.{Mem}
use eggdfs.Base.{
  ◌⊎◌, ℕ, ◌≡◌, ◌↔◌, refl, true, none, some, List, [], ◌∷◌, done, panic, Result, ok, err,
  if◌then◌else◌,
}
use eggdfs.Base.Dict.{insert}
use eggdfs.Base.Text.{Text, bytes, text_eq, has_byte}
use eggdfs.Base.Visit.{forwards}
use eggdfs.Common.Json.{Json}
use eggdfs.Common.Model.{SyncFileInfo}
use eggdfs.Db.Memory.{memory, no_entries, memory-IsLawful}
use eggdfs.Group.{StorageServer, get_storage}
use eggdfs.Tests.{group_name, http, addr_a, addr_b, node, pair}
use eggdfs.Tests.Trackers.{empty_info, json, tracker_of}
use eggdfs.Tests.Selection.{pair_at}
use eggdfs.Tracker.{Tracker, IsSound, get_group}
use eggdfs.Tracker.Delete.{Started, delete}
use eggdfs.Tracker.Delete.Tasks.{delete_crash}
use eggdfs.Tracker.Proxy.{address_url}
use eggdfs.Tracker.Repair.{repair_sync_fail}
use eggdfs.Tracker.Repair.Crash.{IsFatal, repair_sync_fail_panic}
use eggdfs.Tracker.Sync.{DeleteFile, sync_file, delete_task, sync_key}
use eggdfs.Tracker.Sync.Log.{IsMade, sync_file_lem, sync_file_overwrites}
use eggdfs.Tests.Handlers.{tracker, tracker-IsSound, name_f-plain}

-- Two copies of one file that were not made: both servers are offline.
abbrev copy_to : Text → SyncFileInfo
copy_to addr = record empty_info {
  dst = addr;
  file_name = b'f' ∷ [];
  action = b'A' ∷ [];
  group = group_name;
}

abbrev offline : Text → StorageServer
offline addr = node addr 0 300000 100

abbrev key_f : Text
key_f = b'f' ∷ b'@' ∷ b'A' ∷ []

-- The log once one copy of the file is in it.
unfoldable logged : memory.State
unfolding memory
logged = (key_f, b'{' ∷ []) ∷ []

put_first : memory.put tracker.sync_db (sync_key (b'f' ∷ []) (b'A' ∷ [])) (b'{' ∷ []) ≡ ok logged
unfolding memory logged no_entries sync_key bytes insert eggdfs.Tracker.Sync.at_sign
put_first = refl

put_second :
    memory.put
      (sync_file memory json (offline addr_a) (copy_to addr_a) (err []) tracker).sync_db
      (sync_key (b'f' ∷ []) (b'A' ∷ []))
      (b'{' ∷ [])
    ≡ ok logged
unfolding memory logged no_entries sync_key bytes insert sync_file text_eq
    eggdfs.Tracker.Sync.at_sign
put_second = refl

-- The server answers, with an empty body.
abbrev answering : StorageServer
answering = node addr_a 1 300000 100

sync_file_lem_example :
    ((IsMade memory json memory-IsLawful (copy_to addr_a) tracker answering (ok [])
        × ((j : Text)
            → memory.get
                (sync_file memory json answering (copy_to addr_a) (ok []) tracker).sync_db
                j
              ≡ memory.get no_entries j))
      ⊎ ((¬ IsMade memory json memory-IsLawful (copy_to addr_a) tracker answering (ok []))
          × ((j : Text)
              → memory.get
                  (sync_file memory json answering (copy_to addr_a) (ok []) tracker).sync_db
                  j
                ≡ (if text_eq (sync_key (b'f' ∷ []) (b'A' ∷ [])) j
                    then ok (b'{' ∷ [])
                    else memory.get no_entries j))))
    × ((sync_file memory json answering (copy_to addr_a) (ok []) tracker).groups ≡ tracker.groups)
    × ((sync_file memory json answering (copy_to addr_a) (ok []) tracker).locked ≡ tracker.locked)
sync_file_lem_example =
    sync_file_lem memory json memory-IsLawful (copy_to addr_a) tracker answering (ok []) logged
      put_first

sync_file_overwrites_example :
    memory.get
      (sync_file memory json
        (offline addr_b)
        (copy_to addr_b)
        (err [])
        (sync_file memory json (offline addr_a) (copy_to addr_a) (err []) tracker)).sync_db
      key_f
    ≡ (if text_eq (sync_key (b'f' ∷ []) (b'A' ∷ [])) key_f
        then ok (json.marshal_sync (copy_to addr_b))
        else memory.get no_entries key_f)
sync_file_overwrites_example =
    sync_file_overwrites memory json memory-IsLawful (copy_to addr_a) (copy_to addr_b)
      (offline addr_a) (offline addr_b) (err []) (err []) tracker logged logged refl refl refl refl
      put_first put_second key_f

abbrev bare_file : DeleteFile
bare_file = record { file_id = []; group = group_name; md5 = []; file = b'f' ∷ [] }

delete_crash_example :
    (sent : List ℕ) × (started : Started) × (delete forwards true bare_file tracker
      ≡ done (sent, started))
    × (¬ Mem none started)
    × ((s : StorageServer) → Mem (some s) started ↔ (get_storage s.addr pair ≡ some s))
    × ((s : StorageServer) (answer : Result Text Text) (u : Tracker memory.State)
        → delete_task memory json s group_name bare_file answer u ≡ panic)
delete_crash_example =
    delete_crash memory json forwards true bare_file tracker tracker-IsSound pair
      (pair_at no_entries) name_f-plain

-- A log with one record, whose destination is the URL of the second server.
abbrev url_json : Json
url_json = record json {
  unmarshal_sync = λ s. some (record (copy_to addr_b) { dst = address_url http addr_b });
}

abbrev waiting : Tracker memory.State
waiting = tracker_of logged pair

waiting-IsFatal : IsFatal memory url_json (λ url info. err []) (b'{' ∷ []) waiting
unfolding has_byte
waiting-IsFatal = record {
  info = record (copy_to addr_b) { dst = address_url http addr_b };
  decoded = refl;
  group = pair;
  at = pair_at logged;
  plain = (refl, (refl, tt));
  schema = http;
  addr = addr_b;
  destination = refl;
}

logged-entries : memory.entries logged ≡ (key_f, b'{' ∷ []) ∷ []
unfolding memory logged
logged-entries = refl

repair_sync_fail_panic_example :
    repair_sync_fail memory url_json (λ url info. err []) waiting ≡ panic
repair_sync_fail_panic_example =
    repair_sync_fail_panic memory url_json (λ url info. err []) [] [] key_f (b'{' ∷ []) waiting
      logged-entries waiting-IsFatal
