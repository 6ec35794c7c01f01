-- ===== src/Tests/Databases.antt =====
-- The database, the helpers and the goroutines of a deletion.
use eggdfs.Base.{◌⊎◌, ◌≡◌, refl, false, [], ◌∷◌, done, ok, err, if◌then◌else◌}
use eggdfs.Base.Text.{Text, bytes, has_byte, text_eq}
use eggdfs.Db.{put, delete}
use eggdfs.Db.Memory.{memory, no_entries, memory-IsLawful}
use eggdfs.Common.Const.{sync_delete}
use eggdfs.Group.{StorageServer}
use eggdfs.Tests.{group_name, addr_a, node, pair}
use eggdfs.Tests.Trackers.{json, tracker_of}
use eggdfs.Tracker.{Tracker}
use eggdfs.Tracker.Sync.{DeleteFile, sync_key, delete_task}
use eggdfs.Tracker.Sync.Removal.{IsRemoved, delete_task_lem}

abbrev key_k : Text
key_k = b'k' ∷ []

abbrev key_l : Text
key_l = b'l' ∷ []

unfoldable one_entry : memory.State
unfolding memory
one_entry = (key_k, b'1' ∷ []) ∷ []

put_one : put memory no_entries key_k (b'1' ∷ []) ≡ ok one_entry
unfolding put memory no_entries one_entry text_eq
put_one = refl

delete_one : delete memory one_entry (key_l ∷ key_k ∷ []) ≡ (no_entries, ok tt)
unfolding delete memory no_entries one_entry text_eq
delete_one = refl

id_7-plain : has_byte b'/' (b'7' ∷ []) ≡ false
unfolding has_byte
id_7-plain = refl

-- The client named its file `x.d/y`.
abbrev odd_name : Text
odd_name = b'x' ∷ b'.' ∷ b'd' ∷ b'/' ∷ b'y' ∷ []

abbrev bare : DeleteFile
bare = record { file_id = []; group = group_name; md5 = []; file = b'd' ∷ b'/' ∷ b'f' ∷ [] }

abbrev silent : StorageServer
silent = node addr_a 0 300000 100

abbrev before : Tracker memory.State
before = tracker_of no_entries pair

abbrev key_f : Text
key_f = b'f' ∷ b'@' ∷ b'D' ∷ b'E' ∷ b'L' ∷ b'E' ∷ b'T' ∷ b'E' ∷ []

unfoldable logged : memory.State
unfolding memory
logged = (key_f, b'{' ∷ []) ∷ []

put_removal : memory.put before.sync_db (sync_key (b'f' ∷ []) sync_delete) (b'{' ∷ []) ≡ ok logged
unfolding memory logged no_entries sync_key eggdfs.Tracker.Sync.at_sign bytes sync_delete
put_removal = refl

name_f-plain : has_byte b'/' (b'f' ∷ []) ≡ false
unfolding has_byte
name_f-plain = refl

delete_task_lem_example :
    (u : Tracker memory.State) × (delete_task memory json silent group_name bare (err []) before
      ≡ done u)
    × ((IsRemoved memory json memory-IsLawful silent group_name bare
            (err [])
            before
            (b'd' ∷ [])
            (b'f' ∷ [])
            refl
            name_f-plain
          × ((j : Text) → memory.get u.sync_db j ≡ memory.get no_entries j))
        ⊎ ((¬ IsRemoved memory json memory-IsLawful silent group_name bare
              (err [])
              before
              (b'd' ∷ [])
              (b'f' ∷ [])
              refl
              name_f-plain)
            × ((j : Text)
                → memory.get u.sync_db j ≡ (
                    if text_eq (sync_key (b'f' ∷ []) sync_delete) j
                    then ok (b'{' ∷ [])
                    else memory.get no_entries j))))
    × (u.groups ≡ (group_name, pair) ∷ [])
    × (u.locked ≡ false)
delete_task_lem_example =
    delete_task_lem memory json memory-IsLawful silent group_name bare (err []) before (b'd' ∷ [])
      (b'f' ∷ []) refl name_f-plain logged put_removal
