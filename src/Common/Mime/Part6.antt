-- ===== src/Common/Mime/Part6.antt =====
-- Entries 576 to 688 of `FileContentType` (common/const.go).
use eggdfs.Base.{List, [], ◌∷◌}
use Prim.Native.String.{String}

unfoldable pub content_types_6 : List (String × String)
content_types_6 =
    ("tlz", "application/x-lzma-compressed-tar")
    ∷ ("tnef", "application/vnd.ms-tnef")
    ∷ ("tnf", "application/vnd.ms-tnef")
    ∷ ("toc", "application/x-cdrdao-toc")
    ∷ ("torrent", "application/x-bittorrent")
    ∷ ("tpic", "image/x-tga")
    ∷ ("tr", "text/troff")
    ∷ ("ts", "application/x-linguist")
    ∷ ("tsv", "text/tab-separated-values")
    ∷ ("tta", "audio/x-tta")
    ∷ ("ttc", "application/x-font-ttf")
    ∷ ("ttf", "application/x-font-ttf")
    ∷ ("ttx", "application/x-font-ttx")
    ∷ ("txt", "text/plain")
    ∷ ("txz", "application/x-xz-compressed-tar")
    ∷ ("tzo", "application/x-tzo")
    ∷ ("ufraw", "application/x-ufraw")
    ∷ ("ui", "application/x-designer")
    ∷ ("uil", "text/x-uil")
    ∷ ("ult", "audio/x-mod")
    ∷ ("uni", "audio/x-mod")
    ∷ ("uri", "text/x-uri")
    ∷ ("url", "text/x-uri")
    ∷ ("ustar", "application/x-ustar")
    ∷ ("vala", "text/x-vala")
    ∷ ("vapi", "text/x-vala")
    ∷ ("vcf", "text/directory")
    ∷ ("vcs", "text/calendar")
    ∷ ("vct", "text/directory")
    ∷ ("vda", "image/x-tga")
    ∷ ("vhd", "text/x-vhdl")
    ∷ ("vhdl", "text/x-vhdl")
    ∷ ("viv", "video/vivo")
    ∷ ("vivo", "video/vivo")
    ∷ ("vlc", "audio/x-mpegurl")
    ∷ ("vob", "video/mpeg")
    ∷ ("voc", "audio/x-voc")
    ∷ ("vor", "application/vnd.stardivision.writer")
    ∷ ("vst", "image/x-tga")
    ∷ ("wav", "audio/x-wav")
    ∷ ("wax", "audio/x-ms-asx")
    ∷ ("wb1", "application/x-quattropro")
    ∷ ("wb2", "application/x-quattropro")
    ∷ ("wb3", "application/x-quattropro")
    ∷ ("wbmp", "image/vnd.wap.wbmp")
    ∷ ("wcm", "application/vnd.ms-works")
    ∷ ("wdb", "application/vnd.ms-works")
    ∷ ("webm", "video/webm")
    ∷ ("wk1", "application/vnd.lotus-1-2-3")
    ∷ ("wk3", "application/vnd.lotus-1-2-3")
    ∷ ("wk4", "application/vnd.lotus-1-2-3")
    ∷ ("wks", "application/vnd.ms-works")
    ∷ ("wma", "audio/x-ms-wma")
    ∷ ("wmf", "image/x-wmf")
    ∷ ("wml", "text/vnd.wap.wml")
    ∷ ("wmls", "text/vnd.wap.wmlscript")
    ∷ ("wmv", "video/x-ms-wmv")
    ∷ ("wmx", "audio/x-ms-asx")
    ∷ ("wp", "application/vnd.wordperfect")
    ∷ ("wp4", "application/vnd.wordperfect")
    ∷ ("wp5", "application/vnd.wordperfect")
    ∷ ("wp6", "application/vnd.wordperfect")
    ∷ ("wpd", "application/vnd.wordperfect")
    ∷ ("wpg", "application/x-wpg")
    ∷ ("wpl", "application/vnd.ms-wpl")
    ∷ ("wpp", "application/vnd.wordperfect")
    ∷ ("wps", "application/vnd.ms-works")
    ∷ ("wri", "application/x-mswrite")
    ∷ ("wrl", "model/vrml")
    ∷ ("wv", "audio/x-wavpack")
    ∷ ("wvc", "audio/x-wavpack-correction")
    ∷ ("wvp", "audio/x-wavpack")
    ∷ ("wvx", "audio/x-ms-asx")
    ∷ ("x3f", "image/x-sigma-x3f")
    ∷ ("xac", "application/x-gnucash")
    ∷ ("xbel", "application/x-xbel")
    ∷ ("xbl", "application/xml")
    ∷ ("xbm", "image/x-xbitmap")
    ∷ ("xcf", "image/x-xcf")
    ∷ ("xcf.bz2", "image/x-compressed-xcf")
    ∷ ("xcf.gz", "image/x-compressed-xcf")
    ∷ ("xhtml", "application/xhtml+xml")
    ∷ ("xi", "audio/x-xi")
    ∷ ("xla", "application/vnd.ms-excel")
    ∷ ("xlc", "application/vnd.ms-excel")
    ∷ ("xld", "application/vnd.ms-excel")
    ∷ ("xlf", "application/x-xliff")
    ∷ ("xliff", "application/x-xliff")
    ∷ ("xll", "application/vnd.ms-excel")
    ∷ ("xlm", "application/vnd.ms-excel")
    ∷ ("xls", "application/vnd.ms-excel")
    ∷ ("xlsm", "application/vnd.openxmlformats-officedocument.spreadsheetml.sheet")
    ∷ ("xlsx", "application/vnd.openxmlformats-officedocument.spreadsheetml.sheet")
    ∷ ("xlt", "application/vnd.ms-excel")
    ∷ ("xlw", "application/vnd.ms-excel")
    ∷ ("xm", "audio/x-xm")
    ∷ ("xmf", "audio/x-xmf")
    ∷ ("xmi", "text/x-xmi")
    ∷ ("xml", "application/xml")
    ∷ ("xpm", "image/x-xpixmap")
    ∷ ("xps", "application/vnd.ms-xpsdocument")
    ∷ ("xsl", "application/xml")
    ∷ ("xslfo", "text/x-xslfo")
    ∷ ("xslt", "application/xml")
    ∷ ("xspf", "application/xspf+xml")
    ∷ ("xul", "application/vnd.mozilla.xul+xml")
    ∷ ("xwd", "image/x-xwindowdump")
    ∷ ("xyz", "chemical/x-pdb")
    ∷ ("xz", "application/x-xz")
    ∷ ("w2p", "application/w2p")
    ∷ ("z", "application/x-compress")
    ∷ ("zabw", "application/x-abiword")
    ∷ ("zip", "application/zip")
    ∷ []
