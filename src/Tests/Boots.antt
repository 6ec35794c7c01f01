-- ===== src/Tests/Boots.antt =====
-- A storage that starts on an empty disk.
use eggdfs.Base.{◌≡◌, refl, Option, some, [], ◌∷◌, done}
use eggdfs.Base.Text.{Text, text_eq}
use eggdfs.Db.Memory.{memory, no_entries}
use eggdfs.Disk.{calm}
use eggdfs.Storage.{Storage}
use eggdfs.Storage.Boot.{start_storage, fresh_storage_stores}
use eggdfs.Storage.Upload.{find_hash, exceeds, quick_upload}
use eggdfs.Storage.Upload.Outcomes.{Stored}
use eggdfs.Tests.Storages.{conf, digest, today, photo, request, name-plain, name-ne-nil}
use eggdfs.Tests.Trackers.{json}
use eggdfs.Util.{gen_file_path}

abbrev opening : Text → Option memory.State
opening path = some no_entries

fresh_storage_stores_example :
    (s : Storage memory.State) × (start_storage opening conf calm [] [] ≡ done (s, []))
    × Stored memory json digest conf calm
        (gen_file_path today (b'z' ∷ []))
        request
        s
        (quick_upload memory json digest conf calm [] today request s).1
        (quick_upload memory json digest conf calm [] today request s).0
unfolding find_hash text_eq exceeds
fresh_storage_stores_example =
    fresh_storage_stores memory json digest opening conf (λ e. cc) [] no_entries refl today request
      photo refl refl refl refl name-plain name-ne-nil
