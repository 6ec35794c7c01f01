-- ===== src/Storage/Download.antt =====
-- `Download` of svc/storage.go.
pub mod Laws
use eggdfs.Base.{ℕ, [], ◌∷◌, ◌++◌, if◌then◌else◌}
use eggdfs.Base.Text.{Text, bytes, text_eq, path_ext}
use eggdfs.Common.Const.{fail, param_bind_fail}
use eggdfs.Conf.{GlobalConfig}
use eggdfs.Disk.{Faults, stat}
use eggdfs.Storage.{Storage, Answer, answer, slash}
use eggdfs.Util.{path_base, get_file_content_type}

-- An answer, or the path of the file that is sent, with the two headers.
pub data Downloaded : Type 0 where
  denied : Answer → Downloaded
  sent : Text → Text → Text → Downloaded

unfoldable pub attachment : Text → Text
attachment filename = bytes "attachment; filename=" ++ filename

-- `name` is the header with the name for the client.
unfoldable pub download :
    {S : Type 0} → GlobalConfig → Faults → Text → Text → Storage S → Downloaded
unfolding slash stat attachment
download c f file_path name s =
    if text_eq file_path []
    then denied (answer param_bind_fail [])
    else if stat f (slash c.storage.storage_dir file_path) s.disk
    then sent (slash c.storage.storage_dir file_path)
        (attachment (if text_eq name [] then path_base file_path else name))
        (get_file_content_type (path_ext file_path))
    else denied (answer fail (bytes "no such file"))
