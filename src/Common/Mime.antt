-- ===== src/Common/Mime.antt =====
-- The map `FileContentType` of common/const.go, in the order of the source.
mod Part1
mod Part2
mod Part3
mod Part4
mod Part5
mod Part6
use Part1.{content_types_1}
use Part2.{content_types_2}
use Part3.{content_types_3}
use Part4.{content_types_4}
use Part5.{content_types_5}
use Part6.{content_types_6}
use eggdfs.Base.{List, ◌++◌, map}
use eggdfs.Base.Text.{Text, bytes}
use eggdfs.Base.Dict.{Dict}
use Prim.Native.String.{String}

unfoldable pub content_type_entries : List (String × String)
unfolding content_types_1 content_types_2 content_types_3 content_types_4 content_types_5
    content_types_6
content_type_entries =
    content_types_1
    ++ (content_types_2
        ++ (content_types_3 ++ (content_types_4 ++ (content_types_5 ++ (content_types_6)))))

unfoldable pub file_content_type : Dict Text
unfolding content_type_entries
file_content_type = map (λ (k, v). (bytes k, bytes v)) content_type_entries

unfoldable pub default_file_download_content_type : Text
default_file_download_content_type = bytes "application/octet-stream"
