-- ===== src/Storage.antt =====
-- svc/storage.go: the state of a storage server, the addresses of its files, and what it tells the
-- trackers. `disk` is the file system that it works on.
pub mod Upload
pub mod Sync
pub mod Download
pub mod Place
pub mod Effects
pub mod Reach
pub mod Boot
use eggdfs.Base.{ℕ, Option, none, some, List, [], ◌∷◌, ◌++◌, map}
use eggdfs.Base.Text.{Text, bytes, join_host_port}
use eggdfs.Common.Const.{success}
use eggdfs.Common.Model.{FileInfo, RespResult}
use eggdfs.Conf.{GlobalConfig}
use eggdfs.Disk.{Disk}

-- `S` is the state of the database `db`.
pub record Storage (S : Type 0) : Type 0 where
  pub db : S
  pub http_schema : Text
  pub trackers : List Text
  pub disk : Disk

pub record StorageStatus : Type 0 where
  pub group : Text
  pub http_schema : Text
  pub host : Text
  pub port : Text
  pub free : ℕ

-- The body of an error message for the trackers.
pub record ErrMsg : Type 0 where
  pub err_code : ℕ
  pub group : Text
  pub host : Text
  pub port : Text
  pub err_msg : Text

-- What a handler leaves to a goroutine: the error `code` and `msg` for the trackers, or the removal of
-- a file.
pub data Task : Type 0 where
  trans_error_log : ℕ → Text → Task
  remove_later : Text → Task

-- The body of an answer.
abbrev pub Answer : Type 0
Answer = RespResult (Option FileInfo)

abbrev pub answer : ℕ → Text → Answer
answer status message = record { status = status; message = message; data' = none }

-- `hello`
unfoldable pub hello_reply : Answer
hello_reply = answer success (bytes "hello eggdfs storage!")

-- `a + "/" + b`
unfoldable pub slash : Text → Text → Text
slash a b = a ++ (b'/' ∷ b)

module _ {S : Type 0} where
  -- `NewStorage`, with the database and the disk as they were found.
  unfoldable pub new_storage : GlobalConfig → S → Disk → Storage S
  new_storage c db disk = record {
    db = db;
    http_schema = c.http_schema;
    trackers = c.storage.trackers;
    disk = disk;
  }

  unfoldable pub gen_file_static_url : GlobalConfig → Storage S → Text → Text → Text
  unfolding slash
  gen_file_static_url c s base_path filename =
      s.http_schema
      ++ (bytes "://"
          ++ slash (join_host_port c.host c.port)
              (slash c.storage.group (slash base_path filename)))

  -- The posts of `Status`, one goroutine each. `free` is what `disk.Usage` says, if it does.
  unfoldable pub status_reports : GlobalConfig → Option ℕ → Storage S → List (Text × StorageStatus)
  status_reports c free s =
      let status : StorageStatus = record {
        group = c.storage.group;
        http_schema = s.http_schema;
        host = c.host;
        port = c.port;
        free = elim free [ none ↦ 0 | some n ↦ n ];
      } in
      map (λ url. (url ++ bytes "/status", status)) s.trackers

  -- The posts of `TransErrorLogToTracker`, in turn.
  unfoldable pub trans_error_log_to_tracker :
      GlobalConfig → ℕ → Text → Storage S → List (Text × ErrMsg)
  trans_error_log_to_tracker c code msg s =
      map
        (λ url. (
          url ++ bytes "/err/log",
          record {
            err_code = code;
            group = c.storage.group;
            host = c.host;
            port = c.port;
            err_msg = msg;
          },
        ))
        s.trackers
