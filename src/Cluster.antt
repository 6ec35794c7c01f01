-- ===== src/Cluster.antt =====
-- A tracker and its storages together: the files that a storage serves to the others, and what the
-- tracker reads of a report.
pub mod Replicas
pub mod Reports
pub mod Removal
pub mod Errors
pub mod Network
use eggdfs.Base.{Option, none, some}
use eggdfs.Base.Dict.{lookup}
use eggdfs.Base.Text.{Text}
use eggdfs.Conf.{GlobalConfig}
use eggdfs.Disk.{Entry, file, dir}
use eggdfs.Storage.{Storage, StorageStatus, slash}
use eggdfs.Tracker.Report.{Params}

unfoldable pub content_of : Option Entry → Option Text
content_of none = none
content_of (some dir) = none
content_of (some (file x)) = some x

-- `r.StaticFS(group, http.Dir(storage_dir))`: the file at a path below the group's name.
unfoldable pub static_file : {S : Type 0} → GlobalConfig → Storage S → Text → Option Text
unfolding content_of slash
static_file c s path = content_of (lookup (slash c.storage.storage_dir path) s.disk)

-- The fields that `StorageStatus` and the parameters of /status share under their JSON names.
unfoldable pub params_of : StorageStatus → Params
params_of r = record {
  group = r.group;
  http_schema = r.http_schema;
  host = r.host;
  port = r.port;
  free = r.free;
}
