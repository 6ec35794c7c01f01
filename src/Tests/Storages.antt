-- ===== src/Tests/Storages.antt =====
-- Storages: an upload, its download, a copy and a deletion.
use mathlib.Core.Option.{none-ne-some}
use eggdfs.Base.{◌≡◌, ◌≢◌, ◌⊎◌, refl, sym, ◌∙◌, false, some, [], ◌∷◌}
use eggdfs.Base.Dict.{lookup, lookup-nil}
use eggdfs.Base.Int.{pos}
use eggdfs.Base.Text.{Text, text_eq, has_byte}
use eggdfs.Common.Mime.{default_file_download_content_type}
use eggdfs.Conf.{GlobalConfig}
use eggdfs.Db.Memory.{memory, no_entries}
use eggdfs.Disk.{file, dir, calm}
use eggdfs.Storage.{Storage, answer, trans_error_log, slash}
use eggdfs.Storage.Download.{sent, attachment, download}
use eggdfs.Storage.Download.Laws.{download-Stored}
use eggdfs.Storage.Place.{HasRoom}
use eggdfs.Storage.Upload.{FormFile, UploadRequest, Uploaded, find_hash, quick_upload}
use eggdfs.Storage.Upload.Cases.{Instant, quick_upload_cases}
use eggdfs.Storage.Upload.Outcomes.{Stored, Refused}
use eggdfs.Storage.Upload.Succeeds.{CanStore, quick_upload_succeeds}
use eggdfs.Tests.{group_name, http}
use eggdfs.Tests.Trackers.{json}
use eggdfs.Util.{Date, gen_file_path, gen_file_name, path_base}

abbrev pub conf : GlobalConfig
conf = record {
  env = [];
  deploy_type = [];
  http_schema = http;
  host = b'a' ∷ [];
  port = b'1' ∷ [];
  log_dir = [];
  tracker = record { node_id = pos 0; enable_tmp_file = false };
  storage = record {
    group = group_name;
    file_size_limit = pos 3;
    storage_dir = b'm' ∷ [];
    trackers = (b't' ∷ []) ∷ [];
  };
}

abbrev pub digest : Text → Text
digest s = b'5' ∷ s

abbrev pub today : Date
today = record { year = 2024; month = 1; day = 2 }

abbrev pub photo : FormFile
photo = record { filename = b'x' ∷ b'.' ∷ b'y' ∷ []; content = b'c' ∷ b'd' ∷ [] }

abbrev pub request : UploadRequest
request = record {
  file_hash = [];
  custom_dir = b'z' ∷ [];
  uuid = b'7' ∷ [];
  form_file = some photo;
}

abbrev pub empty_storage : Storage memory.State
empty_storage = record { db = no_entries; http_schema = http; trackers = []; disk = [] }

pub empty_disk-HasRoom :
    (base name : Text) → base ≢ [] → has_byte b'/' name ≡ false → name ≢ [] → HasRoom base name []
empty_disk-HasRoom base name rooted plain named = record {
  rooted = rooted;
  free = λ p m x e. none-ne-some (file x) (sym (lookup-nil p) ∙ e);
  slot = λ e. none-ne-some dir (sym (lookup-nil (slash base name)) ∙ e);
  plain = plain;
  named = named;
}

pub name-plain : has_byte b'/' (gen_file_name (b'7' ∷ []) (b'x' ∷ b'.' ∷ b'y' ∷ [])) ≡ false
unfolding gen_file_name has_byte
name-plain = refl

pub name-ne-nil : gen_file_name (b'7' ∷ []) (b'x' ∷ b'.' ∷ b'y' ∷ []) ≢ []
unfolding gen_file_name
name-ne-nil e = cc

base-ne-nil : (path : Text) → slash (b'm' ∷ []) path ≢ []
unfolding slash
base-ne-nil path e = cc

pub room_for_photo :
    (path : Text)
    → HasRoom (slash (b'm' ∷ []) path) (gen_file_name (b'7' ∷ []) (b'x' ∷ b'.' ∷ b'y' ∷ [])) []
room_for_photo path =
    empty_disk-HasRoom (slash (b'm' ∷ []) path)
      (gen_file_name (b'7' ∷ []) (b'x' ∷ b'.' ∷ b'y' ∷ [])) (base-ne-nil path) name-plain
      name-ne-nil

pub request-CanStore : CanStore memory json digest conf [] today request empty_storage
unfolding find_hash text_eq eggdfs.Storage.Upload.exceeds
request-CanStore = record {
  form = photo;
  sent = refl;
  unknown = refl;
  fits = refl;
  agrees = refl;
  room = room_for_photo (gen_file_path today (b'z' ∷ []));
}

abbrev pub run : Uploaded × Storage memory.State
run = quick_upload memory json digest conf calm [] today request empty_storage

pub run-Stored :
    Stored memory json digest conf calm
      (gen_file_path today (b'z' ∷ []))
      request
      empty_storage
      run.1
      run.0
run-Stored =
    quick_upload_succeeds memory json digest conf [] today request empty_storage request-CanStore

quick_upload_cases_example :
    Instant memory json digest conf calm [] today request empty_storage run.1 run.0
    ⊎ Stored memory json digest conf calm
        (gen_file_path today (b'z' ∷ []))
        request
        empty_storage
        run.1
        run.0
    ⊎ Refused memory json digest conf calm
        (gen_file_path today (b'z' ∷ []))
        request
        empty_storage
        run.1
        run.0
quick_upload_cases_example =
    quick_upload_cases memory json digest conf calm [] today request empty_storage

quick_upload_succeeds_example :
    Stored memory json digest conf calm
      (gen_file_path today (b'z' ∷ []))
      request
      empty_storage
      run.1
      run.0
quick_upload_succeeds_example =
    quick_upload_succeeds memory json digest conf [] today request empty_storage request-CanStore

download-Stored_example :
    (download conf calm run.0.headers.file_path [] run.1
      ≡ sent
          (slash (b'm' ∷ []) run.0.headers.file_path)
          (attachment (path_base run.0.headers.file_path))
          default_file_download_content_type)
    × (lookup (slash (b'm' ∷ []) run.0.headers.file_path) run.1.disk
        ≡ some (file run-Stored.form.content))
unfolding text_eq
download-Stored_example =
    download-Stored memory json digest conf calm (gen_file_path today (b'z' ∷ [])) request
      empty_storage run.1 run.0 run-Stored calm [] refl
