-- ===== src/Conf.antt =====
-- svc/conf/conf.go: the configuration. viper, which finds and decodes the file, is a parameter: the
-- outcome of its two calls.
use eggdfs.Base.{Bool, true, false, Option, none, some, List, Outcome, done, panic, if◌then◌else◌}
use eggdfs.Base.Int.{ℤ}
use eggdfs.Base.Text.{Text, bytes, text_eq, to_lower}

pub record TrackerConf : Type 0 where
  pub node_id : ℤ
  pub enable_tmp_file : Bool

pub record StorageConf : Type 0 where
  pub group : Text
  pub file_size_limit : ℤ
  pub storage_dir : Text
  pub trackers : List Text

pub record GlobalConfig : Type 0 where
  pub env : Text
  pub deploy_type : Text
  pub http_schema : Text
  pub host : Text
  pub port : Text
  pub log_dir : Text
  pub tracker : TrackerConf
  pub storage : StorageConf

-- The pointer to the configuration, and the mode of the web framework.
pub record Settings : Type 0 where
  pub config : Option GlobalConfig
  pub release : Bool

-- `read` says whether `ReadInConfig` succeeded, and `decoded` is what `Unmarshal` gives.
unfoldable pub parse_config : Bool → Option GlobalConfig → Settings → Outcome Settings
parse_config false decoded s = panic
parse_config true none s = panic
parse_config true (some c) s = done (record s { config = some c })

unfoldable pub set_mode : Settings → Outcome Settings
set_mode s = elim s.config [
  | none ↦ panic
  | some c ↦
      done (if text_eq (to_lower c.env) (bytes "prod") then record s { release = true } else s)
]
