-- ===== src/Logger.antt =====
-- logger/logger.go: which outputs the program log has. zap writes them.
pub mod Lines
pub mod Silent
use eggdfs.Base.{
  ℕ, Bool, true, false, Option, none, some, List, [], ◌∷◌, Outcome, done, panic, if◌then◌else◌,
}
use eggdfs.Base.Text.{Text, bytes, text_eq}
use eggdfs.Conf.{Settings, set_mode}

-- The file with its limits: megabytes, backups, days.
pub record LogWriter : Type 0 where
  pub filename : Text
  pub max_size : ℕ
  pub max_backups : ℕ
  pub max_age : ℕ
  pub compress : Bool

-- Standard output from the level Debug on, or the file from Info on.
pub data Core : Type 0 where
  console : Core
  rotated : LogWriter → Core

unfoldable pub get_log_writer : Text → LogWriter
get_log_writer log_dir = record {
  filename = log_dir;
  max_size = 10;
  max_backups = 5;
  max_age = 30;
  compress = true;
}

unfoldable pub env_debug : Text
env_debug = bytes "debug"

unfoldable pub env_production : Text
env_production = bytes "prod"

unfoldable pub cores : Text → LogWriter → List Core
unfolding env_debug env_production
cores env writer =
    if text_eq env env_debug
    then console ∷ []
    else if text_eq env env_production
    then rotated writer ∷ []
    else []

unfoldable pub init_logger : Settings → Outcome (List Core)
unfolding cores get_log_writer
init_logger s = elim s.config [
  | none ↦ panic
  | some c ↦ done (cores c.env (get_log_writer c.log_dir))
]
