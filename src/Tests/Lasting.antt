-- ===== src/Tests/Lasting.antt =====
-- A second upload, and a download of the first file after it.
use eggdfs.Base.{◌≡◌, ◌≢◌, refl, sym, true, false, Option, some, none, [], ◌∷◌}
use eggdfs.Base.Dict.{lookup}
use eggdfs.Base.Text.{Text, has_byte, text_eq, text_eq_iff}
use eggdfs.Common.Mime.{default_file_download_content_type}
use eggdfs.Db.Memory.{memory, no_entries}
use eggdfs.Common.Const.{file_save_fail}
use eggdfs.Disk.Files.{GrowsBut}
use eggdfs.Disk.{file, calm}
use eggdfs.Storage.{Storage, answer, remove_later, slash}
use eggdfs.Storage.Download.{sent, attachment, download}
use eggdfs.Storage.Effects.{upload_path}
use eggdfs.Storage.Reach.Damaged.{IsDamaged, dst, quick_upload-damaged}
use eggdfs.Storage.Reach.{remove_damaged, Run, here, next, upload}
use eggdfs.Storage.Reach.Others.{upload-IsForeign, uploads_apart}
use eggdfs.Util.Names.{IsPlain}
use eggdfs.Storage.Upload.{
  UploadRequest, Uploaded, FormFile, no_headers, damaged, find_hash, quick_upload,
}
use eggdfs.Tests.Storages.{
  conf, digest, today, photo, request, room_for_photo, empty_storage, run, run-Stored,
}
use eggdfs.Tests.Trackers.{json}
use eggdfs.Util.{gen_file_path, path_base}

abbrev second : UploadRequest
second = record request { uuid = b'8' ∷ [] }

abbrev second_path : Option Text
second_path = some (upload_path conf today second photo)

abbrev after_second : Storage memory.State
after_second = (quick_upload memory json digest conf calm [] today second run.1).1

second-Run : Run memory json digest conf run.1 (second_path ∷ []) after_second
second-Run = next here (upload calm [] today second refl refl)

first-IsPlain : IsPlain (b'7' ∷ [])
unfolding has_byte
first-IsPlain = record { no_slash = refl; no_dot = refl }

second-IsPlain : IsPlain (b'8' ∷ [])
unfolding has_byte
second-IsPlain = record { no_slash = refl; no_dot = refl }

eight-ne-seven : second.uuid ≢ request.uuid
unfolding text_eq
eight-ne-seven e =
    let bad : true ≡ false = sym ((text_eq_iff second.uuid request.uuid).1 e) in cc (bad)

uploads_apart_example :
    (download conf calm run.0.headers.file_path [] after_second
      ≡ sent
          (slash (b'm' ∷ []) run.0.headers.file_path)
          (attachment (path_base run.0.headers.file_path))
          default_file_download_content_type)
    × (lookup (slash (b'm' ∷ []) run.0.headers.file_path) after_second.disk
        ≡ some (file run-Stored.form.content))
unfolding text_eq
uploads_apart_example =
    uploads_apart memory json digest conf calm [] today request empty_storage run.0 run.1 refl
      run-Stored tt first-IsPlain (second_path ∷ []) after_second second-Run
      (
        upload-IsForeign memory json digest conf today second request.uuid second-IsPlain
            eight-ne-seven,
        tt,
      )
      calm [] refl

-- The digest of the photo is another one.
abbrev wrong : UploadRequest
wrong = record request { file_hash = b'1' ∷ [] }

wrong-IsDamaged : IsDamaged memory json digest conf [] today wrong empty_storage photo
unfolding find_hash memory no_entries text_eq eggdfs.Storage.Upload.exceeds
wrong-IsDamaged = record {
  sent = refl;
  unknown = refl;
  fits = refl;
  given = λ e. cc;
  differs = λ e. cc;
  room = room_for_photo (gen_file_path today (b'z' ∷ []));
}

abbrev wrong_path : Text
wrong_path = dst memory json digest conf [] today wrong empty_storage photo

quick_upload-damaged_example :
    (u : Uploaded) × (s' : Storage memory.State) × (quick_upload memory json digest conf calm []
        today wrong empty_storage
      ≡ (u, s'))
    × (u.reply ≡ answer file_save_fail damaged)
    × (u.headers ≡ no_headers)
    × (u.tasks ≡ remove_later wrong_path ∷ [])
    × (lookup wrong_path (remove_damaged calm wrong_path s').disk ≡ none)
    × GrowsBut wrong_path [] (remove_damaged calm wrong_path s').disk
    × ((remove_damaged calm wrong_path s').db ≡ no_entries)
quick_upload-damaged_example =
    quick_upload-damaged memory json digest conf [] today wrong empty_storage photo wrong-IsDamaged
      tt
