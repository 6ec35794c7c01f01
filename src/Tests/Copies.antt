-- ===== src/Tests/Copies.antt =====
-- Storages and the tracker: a copy, a deletion, the replicas of an upload, and a report.
use eggdfs.Base.{◌≡◌, ◌≢◌, refl, false, none, some, [], ◌∷◌, done, ok, if◌then◌else◌, arith}
use eggdfs.Base.Dict.{lookup}
use eggdfs.Base.Text.{Text, text_eq, has_byte}
use eggdfs.Common.Model.{SyncFileInfo}
use eggdfs.Db
use eggdfs.Db.{put_quietly}
use eggdfs.Db.Memory.{memory, no_entries, memory-IsLawful}
use eggdfs.Disk.{file, calm, stat}
use eggdfs.Disk.Files.{GrowsBut, SameBut}
use eggdfs.Storage.{Storage, answer, slash}
use eggdfs.Storage.Place.{HasRoom}
use eggdfs.Storage.Sync.{Response, copy_info, sync_file_add, sync_file_delete}
use eggdfs.Storage.Sync.Add.{sync_file_add_lem}
use eggdfs.Storage.Sync.Removes.{delete_forgets}
use eggdfs.Storage.Sync.Delete.{sync_file_delete_lem, quick_upload_of_deleted}
use eggdfs.Storage.Upload.{UploadRequest, find_hash, quick_upload}
use eggdfs.Storage.Upload.Cases.{Instant}
use eggdfs.Tests.Storages.{conf, digest, today, request, empty_storage, empty_disk-HasRoom}
use eggdfs.Tests.Trackers.{empty_info, empty_file, json}

abbrev copy : SyncFileInfo
copy = record empty_info { file_path = b'p' ∷ []; file_name = b'f' ∷ []; file_hash = b'9' ∷ [] }

-- A page that says that there is no such file.
abbrev missing_page : Response
missing_page = record { status = 404; body = b'4' ∷ [] }

abbrev copy_path : Text
copy_path = slash (slash (b'm' ∷ []) (b'p' ∷ [])) (b'f' ∷ [])

f-plain : has_byte b'/' (b'f' ∷ []) ≡ false
unfolding has_byte
f-plain = refl

p-ne-nil : slash (b'm' ∷ []) (b'p' ∷ []) ≢ []
unfolding slash
p-ne-nil e = cc

copy-HasRoom : HasRoom (slash (b'm' ∷ []) (b'p' ∷ [])) (b'f' ∷ []) []
copy-HasRoom =
    empty_disk-HasRoom (slash (b'm' ∷ []) (b'p' ∷ [])) (b'f' ∷ []) p-ne-nil f-plain (λ e. cc)

sync_file_add_lem_example :
    (s' : Storage memory.State) × (sync_file_add memory json conf calm copy
        (some missing_page)
        empty_storage
      ≡ done ((some (answer 20000 []), []), s'))
    × (lookup copy_path s'.disk ≡ some (file (b'4' ∷ [])))
    × GrowsBut copy_path [] s'.disk
    × (s'.db
        ≡ put_quietly memory no_entries (b'9' ∷ []) (
            json.marshal_file
              (copy_info memory json conf copy copy_path (b'4' ∷ []) empty_storage)))
sync_file_add_lem_example =
    sync_file_add_lem memory json conf copy missing_page empty_storage copy-HasRoom (omega arith)

abbrev removal : SyncFileInfo
removal = record copy { file_hash = [] }

abbrev removal_path : Text
removal_path = slash (b'm' ∷ []) (slash (b'p' ∷ []) (b'f' ∷ []))

unfoldable known_db : memory.State
unfolding memory
known_db = (b'9' ∷ [], b'{' ∷ []) ∷ []

abbrev holding : Storage memory.State
holding = record empty_storage { db = known_db; disk = (removal_path, file (b'c' ∷ [])) ∷ [] }

removal-status : (sync_file_delete memory json conf calm removal holding).0.status ≡ 20000
unfolding sync_file_delete lookup text_eq
removal-status = refl

sync_file_delete_lem_example :
    (lookup removal_path (sync_file_delete memory json conf calm removal holding).1.disk ≡ none)
    × SameBut removal_path holding.disk
        (sync_file_delete memory json conf calm removal holding).1.disk
    × ((sync_file_delete memory json conf calm removal holding).1.db ≡ (
        if stat calm removal_path holding.disk
        then (if text_eq [] [] then known_db else (Db.delete memory known_db ([] ∷ [])).0)
        else known_db))
unfolding lookup
sync_file_delete_lem_example =
    sync_file_delete_lem memory json conf calm removal holding (refl, tt) refl removal-status

known : find_hash memory json digest conf (b'9' ∷ []) known_db ≡ some empty_file
unfolding find_hash known_db memory text_eq
known = refl

abbrev again : UploadRequest
again = record request { file_hash = b'9' ∷ [] }

quick_upload_of_deleted_example :
    (lookup removal_path (sync_file_delete memory json conf calm removal holding).1.disk ≡ none)
    × Instant memory json digest conf calm [] today again
        (sync_file_delete memory json conf calm removal holding).1
        (quick_upload memory json digest conf calm [] today again
          (sync_file_delete memory json conf calm removal holding).1).1
        (quick_upload memory json digest conf calm [] today again
          (sync_file_delete memory json conf calm removal holding).1).0
unfolding lookup
quick_upload_of_deleted_example =
    quick_upload_of_deleted memory json conf calm removal holding digest calm [] today again
      empty_file (refl, tt) refl removal-status refl known

abbrev named_removal : SyncFileInfo
named_removal = record removal { file_hash = b'9' ∷ [] }

forgotten : memory.delete known_db (b'9' ∷ []) ≡ ok no_entries
unfolding known_db memory text_eq no_entries
forgotten = refl

delete_forgets_example :
    find_hash memory json digest conf
      (b'9' ∷ [])
      (sync_file_delete memory json conf calm named_removal holding).1.db
    ≡ none
unfolding lookup text_eq slash
delete_forgets_example =
    delete_forgets memory json conf named_removal holding memory-IsLawful digest (b'c' ∷ [])
      no_entries (refl, tt) refl (λ e. cc) forgotten
