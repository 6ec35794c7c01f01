-- ===== src/Lib.antt =====
-- eggdfs, a small distributed file system: a tracker keeps groups of storage servers, sends each
-- upload and download to a storage, copies uploads to the other storages of the group, and logs the
-- copies that failed. The development models the tracker with its groups, its proxy and its log
-- database, the storage server on its disk and its database, and the two together.
--
-- Files and code:
--   Common/Const, Common/Mime      common/const.go: codes, statuses, the table of content types
--   Common/Model, Common/Json      common/model/file.go and common.go: records and their encoding
--   Db, Db/*                       common/model/eggdb.go: `new_egg_db`, `get`, `put`, `delete`, ...
--   Util, Util/*                   util/helper.go: paths, file names, content types
--   Util/Hash                      util/hash.go
--   Http, Http/Post                util/helper.go: `HttpPost` and the timeout that it shares
--   Routes, Routes/Calls           what both `Start` register with gin, and the calls in between
--   Conf, Start                    svc/conf/conf.go; svc/start.go, main.go, `GenTrackerNodeId`
--   Start/Timers                   the jobs that both `Start` schedule, and how they end
--   Logger, Logger/*               logger/logger.go: the outputs of the program log, and its lines
--   Group, Group/*                 svc/group.go: `Group`, `StorageServer`, one function per method;
--                                  Group/Sweep is the loop body of `SetTrackerStatus`
--   Tracker, Tracker/Construct     svc/tracker.go: state, `NewTracker`, `get_group`, `register_group`
--   Tracker/Report                 `StorageStatusReport` and `SetTrackerStatus`
--   Tracker/Select                 `SelectStorageIPHash`, `SelectGroupForUpload`
--   Tracker/Proxy                  svc/tracker_proxy.go and svc/proxy/proxy.go
--   Tracker/Upload                 `QuickUpload`
--   Tracker/Sync, Tracker/Delete   `SyncFile`, and `Delete` with its goroutines
--   Tracker/Repair                 `RepairSyncFail` of `startTrackerTimerTask`
--   Tracker/Query                  `GroupStatus`, `Download`
--   Tracker/ErrorLog               `SyncErrorMsg`; Cluster/Errors has both ends of it
--   Tracker/Reach                  all of these as steps of one tracker
--   Disk, Disk/*                   what svc/storage.go uses of package os and io
--   Storage                        svc/storage.go: state, reports, errors for the trackers, URLs
--   Storage/Upload                 `QuickUpload`, `SaveQuickUploadedFile`, `GenMD5`
--   Storage/Download               `Download`
--   Storage/Sync                   `Sync`, `SyncFileAdd`, `SyncFileDelete`
--   Storage/Boot                   `NewStorage` and the directory that `Start` makes
--   Storage/Place                  what the disk of a storage must leave free for a file
--   Storage/Effects, Storage/Reach the handlers as steps of one storage
--   Cluster, Cluster/*             a tracker and one storage: replicas of an upload, deletions, reports
--   Cluster/Network                a tracker and all its storages: the goroutines, in any order
--   Base, Base/*                   shared types, operators, maps, texts, sorting, lemmas
--   Tests, Tests/*                 runs on concrete inputs
-- The names are those of the code, in lower case with underscores. The modules below a part hold its
-- proofs.
--
-- How the code is modelled:
-- - A handler is a function of the state of its tracker or storage. It returns an `Outcome`: a value, a panic (nil
--   dereference, slice or index out of range), or a lock that is never released. A Go `error` is a
--   `Result`.
-- - A map is an association list. A `range` over it visits its values in an order that the environment
--   chooses (`Visit`), and the theorems hold for every order.
-- - A pointer to a group or a storage is the slot of the map that holds it, since a report stores each
--   server that it allocates in one slot only. A write through the pointer writes the slot. A pointer
--   from a lookup that finds nothing is `none`.
-- - The read locks that a call of a group leaves behind are counted in `readers`, and `locked` is the
--   process lock of the tracker. The other locks are released on every path of the function that takes
--   them and do not show.
-- - A step is one handler, one goroutine or one run of the repair job from its first to its last write:
--   the copies that a handler starts run as steps of their own, after any other steps. Finer
--   interleavings of two handlers that write the same server are not modelled.
-- - A string is its list of bytes. Free space and times are numbers without a bound: no operation on
--   them adds, so none wraps, and the age of a report, which is compared with 50 seconds, may stop at
--   0 where the code's is negative. An `int` has 64 bits, so that a hash of 32 bits is not negative.
-- - `sort.Slice` and `sort.Strings` are the insertion sort that Go runs on at most twelve elements.
--   The orders of addresses and of free space are total, and every correct sort gives the same list, so
--   the length does not matter there. The comparison of `SelectGroupForUpload` is never true, and on
--   more than twelve groups Go may leave any order.
-- - A disk maps paths, as they are written, to files with their bytes and to directories: each file has
--   one spelling, there are no links and no dots. `os.MkdirAll` makes the prefixes in turn, `os.Create`
--   wants the parent to be a directory, `os.Remove` refuses a directory that is not empty. Beyond that
--   the system may refuse any call of a request and break off a copy at any byte (`Faults`); a fault
--   holds for the whole request.
-- - What a handler of a storage leaves to a goroutine is a `Task`. The removal of a damaged file is a
--   step of its own (`remove_damaged`); the posts to the trackers change no storage.
-- - A handler of a storage is one step. Two uploads at once to one path are not modelled.
-- - In a network the storages stand under their URLs. A goroutine of the tracker and the handler that it
--   reaches are one step there; the steps come in any order. What nobody takes is an error.
-- - `r.StaticFS` serves the file below the storage directory (`static_file`).
-- - `SyncFileAdd` asks for the URL that it writes, which it does not escape. What a client and a file server
--   make of a URL (`Web.asked`) and of a body (`Web.bind`) are parameters: where a `#`, a `?` or a `%` in a
--   path changes the request, the page is that of another path, and the copy holds it. The body of a
--   deletion is taken as it was sent, which is so for valid UTF-8.
-- - All recursion is structural. `digits` alone runs on fuel: 19 steps, enough for the digits of an `int`.
--
-- Parameters, since their code is not in the repository: goleveldb (`LevelDb`, with `IsLawful` for what
-- it documents), encoding/json (`Json`, `Web.bind`), `url.Parse`, `http.Get` (`Web`), the hash, the digest `md5`, the answers of HTTP
-- requests and of the reverse proxy, `leveldb.OpenFile`, viper, snowflake, `disk.Usage`, the clock and
-- the generated identifiers.
--
-- Not modelled: the banner; how gin runs the server and cron the jobs, whose errors alone are
-- parameters (Start/Timers); the encoders of the program log, and the lines that the handlers other than
-- `SyncErrorMsg` write to it.
mod Base
pub mod Common
pub mod Group
pub mod Db
pub mod Util
pub mod Conf
pub mod Logger
pub mod Start
pub mod Http
pub mod Routes
pub mod Disk
pub mod Storage
pub mod Cluster
pub mod Tracker
mod Tests
