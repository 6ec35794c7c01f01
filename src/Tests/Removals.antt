-- ===== src/Tests/Removals.antt =====
-- A deletion of the first file, through the tracker and at a storage.
use mathlib.Core.List.{Mem}
use eggdfs.Base.{
  ◌≡◌, ◌≢◌, ◌↔◌, refl, sym, ◌∙◌, true, false, ◌&&◌, not, some, none, [], ◌∷◌, done, ok, ◌==◌,
  if◌then◌else◌,
}
use eggdfs.Base.Dict.{lookup, NodupKeys}
use eggdfs.Base.Text.{bytes, has_byte}
use eggdfs.Base.Visit.{forwards}
use eggdfs.Cluster.Removal.{asked, deletion_reaches_replicas}
use eggdfs.Common.Model.{SyncFileInfo}
use eggdfs.Db.Memory.{memory, no_entries}
use eggdfs.Disk.{dir, calm}
use eggdfs.Disk.Files.{SameBut}
use eggdfs.Group.{StorageServer, get_storage}
use eggdfs.Storage.{Storage, answer, slash}
use eggdfs.Storage.Download.{denied, download}
use eggdfs.Storage.Sync.{sync}
use eggdfs.Tests.{group_name, node_a, pair}
use eggdfs.Common.Const.{sync_delete}
use eggdfs.Storage.Reach.{Run-NodupKeys, next, here, upload}
use eggdfs.Storage.Download.Laws.{Stored-content}
use eggdfs.Tests.Selection.{pair_at, a_in_pair}
use eggdfs.Tests.Storages.{conf, digest, today, request, empty_storage, run, run-Stored}
use eggdfs.Tests.Trackers.{json, tracker_of, tracker_of-IsSound}
use eggdfs.Tracker.{Tracker}
use eggdfs.Tracker.Delete.{Started, delete}
use eggdfs.Tracker.Sync.{DeleteFile, delete_accepted, delete_task, log_failure}
use eggdfs.Util.{gen_file_path}

abbrev wanted : DeleteFile
wanted = record {
  file_id = [];
  group = group_name;
  md5 = b'9' ∷ [];
  file = run.0.headers.file_path;
}

abbrev tracker : Tracker memory.State
tracker = tracker_of no_entries pair

id-plain : has_byte b'/' (b'7' ∷ []) ≡ false
unfolding has_byte
id-plain = refl

abbrev elsewhere : SyncFileInfo
elsewhere =
    asked memory json digest calm conf (gen_file_path today (b'z' ∷ [])) request empty_storage run.1
      run.0 run-Stored node_a pair wanted

free : lookup (slash (b'm' ∷ []) wanted.file) run.1.disk ≢ some dir
free e =
    let held =
      Stored-content memory json digest conf calm (gen_file_path today (b'z' ∷ [])) request
        empty_storage run.1 run.0 run-Stored in
    cc (sym held ∙ e)

pub once : NodupKeys run.1.disk
once =
    Run-NodupKeys memory json digest conf empty_storage run.1 _
      (next here (upload calm [] today request refl refl)) tt

deletion_reaches_replicas_example :
    (started : Started) × (delete forwards true wanted tracker ≡ done (20000 ∷ [], started))
    × Mem (some node_a) started
    × ((other : StorageServer)
        → Mem (some other) started ↔ (get_storage other.addr pair ≡ some other))
    × (b' : Storage memory.State) × (sync memory json conf calm elsewhere none run.1
        ≡ done ((some (answer 20000 []), []), b'))
    × (download conf calm wanted.file [] b' ≡ denied (answer 10000 (bytes "no such file")))
    × SameBut (slash (b'm' ∷ []) wanted.file) run.1.disk b'.disk
    × (delete_task memory json node_a group_name wanted (ok []) tracker
        ≡ done (
            if not (1 == 0) && delete_accepted json (ok [])
            then tracker
            else log_failure memory json sync_delete elsewhere tracker))
deletion_reaches_replicas_example =
    deletion_reaches_replicas memory json digest calm conf (gen_file_path today (b'z' ∷ [])) request
      empty_storage run.1 run.0 run-Stored forwards tracker (tracker_of-IsSound no_entries) pair
      wanted (pair_at no_entries) refl id-plain node_a a_in_pair conf run.1 none [] once free
      (ok []) tracker
