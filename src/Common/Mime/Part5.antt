-- ===== src/Common/Mime/Part5.antt =====
-- Entries 461 to 575 of `FileContentType` (common/const.go).
use eggdfs.Base.{List, [], ◌∷◌}
use Prim.Native.String.{String}

unfoldable pub content_types_5 : List (String × String)
content_types_5 =
    ("rdf", "application/rdf+xml")
    ∷ ("rdfs", "application/rdf+xml")
    ∷ ("reg", "text/x-ms-regedit")
    ∷ ("rej", "application/x-reject")
    ∷ ("rgb", "image/x-rgb")
    ∷ ("rle", "image/rle")
    ∷ ("rm", "application/vnd.rn-realmedia")
    ∷ ("rmj", "application/vnd.rn-realmedia")
    ∷ ("rmm", "application/vnd.rn-realmedia")
    ∷ ("rms", "application/vnd.rn-realmedia")
    ∷ ("rmvb", "application/vnd.rn-realmedia")
    ∷ ("rmx", "application/vnd.rn-realmedia")
    ∷ ("roff", "text/troff")
    ∷ ("rp", "image/vnd.rn-realpix")
    ∷ ("rpm", "application/x-rpm")
    ∷ ("rss", "application/rss+xml")
    ∷ ("rt", "text/vnd.rn-realtext")
    ∷ ("rtf", "application/rtf")
    ∷ ("rtx", "text/richtext")
    ∷ ("rv", "video/vnd.rn-realvideo")
    ∷ ("rvx", "video/vnd.rn-realvideo")
    ∷ ("s3m", "audio/x-s3m")
    ∷ ("sam", "application/x-amipro")
    ∷ ("sami", "application/x-sami")
    ∷ ("sav", "application/x-spss-sav")
    ∷ ("scm", "text/x-scheme")
    ∷ ("sda", "application/vnd.stardivision.draw")
    ∷ ("sdc", "application/vnd.stardivision.calc")
    ∷ ("sdd", "application/vnd.stardivision.impress")
    ∷ ("sdp", "application/sdp")
    ∷ ("sds", "application/vnd.stardivision.chart")
    ∷ ("sdw", "application/vnd.stardivision.writer")
    ∷ ("sgf", "application/x-go-sgf")
    ∷ ("sgi", "image/x-sgi")
    ∷ ("sgl", "application/vnd.stardivision.writer")
    ∷ ("sgm", "text/sgml")
    ∷ ("sgml", "text/sgml")
    ∷ ("sh", "application/x-shellscript")
    ∷ ("shar", "application/x-shar")
    ∷ ("shn", "application/x-shorten")
    ∷ ("siag", "application/x-siag")
    ∷ ("sid", "audio/prs.sid")
    ∷ ("sik", "application/x-trash")
    ∷ ("sis", "application/vnd.symbian.install")
    ∷ ("sisx", "x-epoc/x-sisx-app")
    ∷ ("sit", "application/x-stuffit")
    ∷ ("siv", "application/sieve")
    ∷ ("sk", "image/x-skencil")
    ∷ ("sk1", "image/x-skencil")
    ∷ ("skr", "application/pgp-keys")
    ∷ ("slk", "text/spreadsheet")
    ∷ ("smaf", "application/x-smaf")
    ∷ ("smc", "application/x-snes-rom")
    ∷ ("smd", "application/vnd.stardivision.mail")
    ∷ ("smf", "application/vnd.stardivision.math")
    ∷ ("smi", "application/x-sami")
    ∷ ("smil", "application/smil")
    ∷ ("sml", "application/smil")
    ∷ ("sms", "application/x-sms-rom")
    ∷ ("snd", "audio/basic")
    ∷ ("so", "application/x-sharedlib")
    ∷ ("spc", "application/x-pkcs7-certificates")
    ∷ ("spd", "application/x-font-speedo")
    ∷ ("spec", "text/x-rpm-spec")
    ∷ ("spl", "application/x-shockwave-flash")
    ∷ ("spx", "audio/x-speex")
    ∷ ("sql", "text/x-sql")
    ∷ ("sr2", "image/x-sony-sr2")
    ∷ ("src", "application/x-wais-source")
    ∷ ("srf", "image/x-sony-srf")
    ∷ ("srt", "application/x-subrip")
    ∷ ("ssa", "text/x-ssa")
    ∷ ("stc", "application/vnd.sun.xml.calc.template")
    ∷ ("std", "application/vnd.sun.xml.draw.template")
    ∷ ("sti", "application/vnd.sun.xml.impress.template")
    ∷ ("stm", "audio/x-stm")
    ∷ ("stw", "application/vnd.sun.xml.writer.template")
    ∷ ("sty", "text/x-tex")
    ∷ ("sub", "text/x-subviewer")
    ∷ ("sun", "image/x-sun-raster")
    ∷ ("sv4cpio", "application/x-sv4cpio")
    ∷ ("sv4crc", "application/x-sv4crc")
    ∷ ("svg", "image/svg+xml")
    ∷ ("svgz", "image/svg+xml-compressed")
    ∷ ("swf", "application/x-shockwave-flash")
    ∷ ("sxc", "application/vnd.sun.xml.calc")
    ∷ ("sxd", "application/vnd.sun.xml.draw")
    ∷ ("sxg", "application/vnd.sun.xml.writer.global")
    ∷ ("sxi", "application/vnd.sun.xml.impress")
    ∷ ("sxm", "application/vnd.sun.xml.math")
    ∷ ("sxw", "application/vnd.sun.xml.writer")
    ∷ ("sylk", "text/spreadsheet")
    ∷ ("t", "text/troff")
    ∷ ("t2t", "text/x-txt2tags")
    ∷ ("tar", "application/x-tar")
    ∷ ("tar.bz", "application/x-bzip-compressed-tar")
    ∷ ("tar.bz2", "application/x-bzip-compressed-tar")
    ∷ ("tar.gz", "application/x-compressed-tar")
    ∷ ("tar.lzma", "application/x-lzma-compressed-tar")
    ∷ ("tar.lzo", "application/x-tzo")
    ∷ ("tar.xz", "application/x-xz-compressed-tar")
    ∷ ("tar.z", "application/x-tarz")
    ∷ ("tbz", "application/x-bzip-compressed-tar")
    ∷ ("tbz2", "application/x-bzip-compressed-tar")
    ∷ ("tcl", "text/x-tcl")
    ∷ ("tex", "text/x-tex")
    ∷ ("texi", "text/x-texinfo")
    ∷ ("texinfo", "text/x-texinfo")
    ∷ ("tga", "image/x-tga")
    ∷ ("tgz", "application/x-compressed-tar")
    ∷ ("theme", "application/x-theme")
    ∷ ("themepack", "application/x-windows-themepack")
    ∷ ("tif", "image/tiff")
    ∷ ("tiff", "image/tiff")
    ∷ ("tk", "text/x-tcl")
    ∷ []
