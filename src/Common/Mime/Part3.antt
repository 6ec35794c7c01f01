-- ===== src/Common/Mime/Part3.antt =====
-- Entries 231 to 345 of `FileContentType` (common/const.go).
use eggdfs.Base.{List, [], ◌∷◌}
use Prim.Native.String.{String}

unfoldable pub content_types_3 : List (String × String)
content_types_3 =
    ("jpx", "image/jp2")
    ∷ ("js", "application/javascript")
    ∷ ("json", "application/json")
    ∷ ("jsonp", "application/jsonp")
    ∷ ("k25", "image/x-kodak-k25")
    ∷ ("kar", "audio/midi")
    ∷ ("karbon", "application/x-karbon")
    ∷ ("kdc", "image/x-kodak-kdc")
    ∷ ("kdelnk", "application/x-desktop")
    ∷ ("kexi", "application/x-kexiproject-sqlite3")
    ∷ ("kexic", "application/x-kexi-connectiondata")
    ∷ ("kexis", "application/x-kexiproject-shortcut")
    ∷ ("kfo", "application/x-kformula")
    ∷ ("kil", "application/x-killustrator")
    ∷ ("kino", "application/smil")
    ∷ ("kml", "application/vnd.google-earth.kml+xml")
    ∷ ("kmz", "application/vnd.google-earth.kmz")
    ∷ ("kon", "application/x-kontour")
    ∷ ("kpm", "application/x-kpovmodeler")
    ∷ ("kpr", "application/x-kpresenter")
    ∷ ("kpt", "application/x-kpresenter")
    ∷ ("kra", "application/x-krita")
    ∷ ("ksp", "application/x-kspread")
    ∷ ("kud", "application/x-kugar")
    ∷ ("kwd", "application/x-kword")
    ∷ ("kwt", "application/x-kword")
    ∷ ("la", "application/x-shared-library-la")
    ∷ ("latex", "text/x-tex")
    ∷ ("ldif", "text/x-ldif")
    ∷ ("lha", "application/x-lha")
    ∷ ("lhs", "text/x-literate-haskell")
    ∷ ("lhz", "application/x-lhz")
    ∷ ("log", "text/x-log")
    ∷ ("ltx", "text/x-tex")
    ∷ ("lua", "text/x-lua")
    ∷ ("lwo", "image/x-lwo")
    ∷ ("lwob", "image/x-lwo")
    ∷ ("lws", "image/x-lws")
    ∷ ("ly", "text/x-lilypond")
    ∷ ("lyx", "application/x-lyx")
    ∷ ("lz", "application/x-lzip")
    ∷ ("lzh", "application/x-lha")
    ∷ ("lzma", "application/x-lzma")
    ∷ ("lzo", "application/x-lzop")
    ∷ ("m", "text/x-matlab")
    ∷ ("m15", "audio/x-mod")
    ∷ ("m2t", "video/mpeg")
    ∷ ("m3u", "audio/x-mpegurl")
    ∷ ("m3u8", "audio/x-mpegurl")
    ∷ ("m4", "application/x-m4")
    ∷ ("m4a", "audio/mp4")
    ∷ ("m4b", "audio/x-m4b")
    ∷ ("m4v", "video/mp4")
    ∷ ("mab", "application/x-markaby")
    ∷ ("man", "application/x-troff-man")
    ∷ ("mbox", "application/mbox")
    ∷ ("md", "text/markdown")
    ∷ ("mdb", "application/vnd.ms-access")
    ∷ ("mdi", "image/vnd.ms-modi")
    ∷ ("me", "text/x-troff-me")
    ∷ ("med", "audio/x-mod")
    ∷ ("metalink", "application/metalink+xml")
    ∷ ("mgp", "application/x-magicpoint")
    ∷ ("mid", "audio/midi")
    ∷ ("midi", "audio/midi")
    ∷ ("mif", "application/x-mif")
    ∷ ("minipsf", "audio/x-minipsf")
    ∷ ("mka", "audio/x-matroska")
    ∷ ("mkv", "video/x-matroska")
    ∷ ("ml", "text/x-ocaml")
    ∷ ("mli", "text/x-ocaml")
    ∷ ("mm", "text/x-troff-mm")
    ∷ ("mmf", "application/x-smaf")
    ∷ ("mml", "text/mathml")
    ∷ ("mng", "video/x-mng")
    ∷ ("mo", "application/x-gettext-translation")
    ∷ ("mo3", "audio/x-mo3")
    ∷ ("moc", "text/x-moc")
    ∷ ("mod", "audio/x-mod")
    ∷ ("mof", "text/x-mof")
    ∷ ("moov", "video/quicktime")
    ∷ ("mov", "video/quicktime")
    ∷ ("movie", "video/x-sgi-movie")
    ∷ ("mp+", "audio/x-musepack")
    ∷ ("mp2", "video/mpeg")
    ∷ ("mp3", "audio/mpeg")
    ∷ ("mp4", "video/mp4")
    ∷ ("mpc", "audio/x-musepack")
    ∷ ("mpe", "video/mpeg")
    ∷ ("mpeg", "video/mpeg")
    ∷ ("mpg", "video/mpeg")
    ∷ ("mpga", "audio/mpeg")
    ∷ ("mpp", "audio/x-musepack")
    ∷ ("mrl", "text/x-mrml")
    ∷ ("mrml", "text/x-mrml")
    ∷ ("mrw", "image/x-minolta-mrw")
    ∷ ("ms", "text/x-troff-ms")
    ∷ ("msi", "application/x-msi")
    ∷ ("msod", "image/x-msod")
    ∷ ("msx", "application/x-msx-rom")
    ∷ ("mtm", "audio/x-mod")
    ∷ ("mup", "text/x-mup")
    ∷ ("mxf", "application/mxf")
    ∷ ("n64", "application/x-n64-rom")
    ∷ ("nb", "application/mathematica")
    ∷ ("nc", "application/x-netcdf")
    ∷ ("nds", "application/x-nintendo-ds-rom")
    ∷ ("nef", "image/x-nikon-nef")
    ∷ ("nes", "application/x-nes-rom")
    ∷ ("nfo", "text/x-nfo")
    ∷ ("not", "text/x-mup")
    ∷ ("nsc", "application/x-netshow-channel")
    ∷ ("nsv", "video/x-nsv")
    ∷ ("o", "application/x-object")
    ∷ ("obj", "application/x-tgif")
    ∷ []
