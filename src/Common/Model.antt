-- ===== src/Common/Model.antt =====
-- common/model: `RespResult`, `FileInfo` and `SyncFileInfo`.
use eggdfs.Base.{ℕ}
use eggdfs.Base.Text.{Text}

pub record FileInfo : Type 0 where
  pub file_id : Text
  pub name : Text
  pub rename : Text
  pub url : Text
  pub path : Text
  pub md5 : Text
  pub size : ℕ
  pub group : Text

pub record SyncFileInfo : Type 0 where
  pub src : Text
  pub dst : Text
  pub file_id : Text
  pub file_path : Text
  pub file_name : Text
  pub file_hash : Text
  pub action : Text
  pub group : Text

-- `D` is the type of the field `Data` where a response has one.
pub record RespResult {ℓ} (D : Type ℓ) : Type ℓ where
  pub status : ℕ
  pub message : Text
  pub data' : D
