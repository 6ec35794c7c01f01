-- ===== src/Common/Json.antt =====
-- `encoding/json` on the records of common/model: a parameter. What a value decodes to is said
-- where a theorem needs it, value by value, since not every byte string survives JSON.
use eggdfs.Base.{ℕ, Bool, Option}
use eggdfs.Base.Text.{Text}
use eggdfs.Common.Model.{FileInfo, SyncFileInfo}

pub record Json : Type 0 where
  pub marshal_sync : SyncFileInfo → Text
  pub unmarshal_sync : Text → Option SyncFileInfo
  pub marshal_file : FileInfo → Text
  -- what the bytes leave in an empty `FileInfo`
  pub unmarshal_file : Text → FileInfo
  -- whether the bytes fail to decode as a `RespResult`, and the `Status` that they leave
  pub unmarshal_resp : Text → Bool × ℕ
