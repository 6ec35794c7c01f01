-- ===== src/Logger/Lines.antt =====
-- `Info` to `Fatal` of logger/logger.go: the line that each hands to zap. After the line zap panics in
-- `Panic` and ends the process in `Fatal`.
use eggdfs.Base.{List}
use eggdfs.Base.Text.{Text}

pub data Level : Type 0 where
  debug_level : Level
  info_level : Level
  warn_level : Level
  error_level : Level
  panic_level : Level
  fatal_level : Level

-- The fields are those of `zap.String`.
pub record Line : Type 0 where
  pub level : Level
  pub message : Text
  pub fields : List (Text × Text)

unfoldable pub log_info : Text → List (Text × Text) → Line
log_info msg fields = record { level = info_level; message = msg; fields = fields }

unfoldable pub log_debug : Text → List (Text × Text) → Line
log_debug msg fields = record { level = debug_level; message = msg; fields = fields }

unfoldable pub log_error : Text → List (Text × Text) → Line
log_error msg fields = record { level = error_level; message = msg; fields = fields }

unfoldable pub log_warn : Text → List (Text × Text) → Line
log_warn msg fields = record { level = warn_level; message = msg; fields = fields }

unfoldable pub log_panic : Text → List (Text × Text) → Line
log_panic msg fields = record { level = panic_level; message = msg; fields = fields }

unfoldable pub log_fatal : Text → List (Text × Text) → Line
log_fatal msg fields = record { level = fatal_level; message = msg; fields = fields }
