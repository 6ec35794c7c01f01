-- ===== src/Routes.antt =====
-- What `Tracker.Start` and `Storage.Start` register with gin: the handler of each method and path. A path
-- without parameters is matched as it stands.
pub mod Calls
use eggdfs.Base.{Bool, true, false, ◌&&◌, Option, none, some, List, [], ◌∷◌, if◌then◌else◌}
use eggdfs.Base.Text.{Text, bytes, text_eq}

pub data Method : Type 0 where
  get : Method
  post : Method

pub record Route (H : Type 0) : Type 0 where
  pub method : Method
  pub path : Text
  pub handler : H

unfoldable pub same_method : Method → Method → Bool
same_method get get = true
same_method get post = false
same_method post get = false
same_method post post = true

unfoldable pub route : {H : Type 0} → List (Route H) → Method → Text → Option H
unfolding same_method
route [] m path = none
route (r ∷ rs) m path =
    let rest = route rs m path in
    if same_method r.method m && text_eq r.path path then some r.handler else rest

-- The handlers of svc/tracker.go.
pub data TrackerHandler : Type 0 where
  storage_status_report : TrackerHandler
  quick_upload : TrackerHandler
  delete : TrackerHandler
  group_status : TrackerHandler
  sync_error_msg : TrackerHandler
  download : TrackerHandler

-- The group that `r.Group("/v1")` returns is dropped, so the upload is registered without the prefix.
unfoldable pub tracker_routes : List (Route TrackerHandler)
tracker_routes =
    record { method = post; path = bytes "/status"; handler = storage_status_report }
    ∷ record { method = post; path = bytes "/upload"; handler = quick_upload }
    ∷ record { method = post; path = bytes "/delete"; handler = delete }
    ∷ record { method = get; path = bytes "/g/status"; handler = group_status }
    ∷ record { method = post; path = bytes "/err/log"; handler = sync_error_msg }
    ∷ record { method = get; path = bytes "/download"; handler = download }
    ∷ []

-- Those of svc/storage.go. The files of the group are served besides.
pub data StorageHandler : Type 0 where
  hello : StorageHandler
  download_file : StorageHandler
  sync_file : StorageHandler
  upload_file : StorageHandler

unfoldable pub storage_routes : List (Route StorageHandler)
storage_routes =
    record { method = get; path = bytes "/hello"; handler = hello }
    ∷ record { method = get; path = bytes "/download"; handler = download_file }
    ∷ record { method = post; path = bytes "/sync"; handler = sync_file }
    ∷ record { method = post; path = bytes "/upload"; handler = upload_file }
    ∷ []
