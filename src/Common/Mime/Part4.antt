-- ===== src/Common/Mime/Part4.antt =====
-- Entries 346 to 460 of `FileContentType` (common/const.go).
use eggdfs.Base.{List, [], ◌∷◌}
use Prim.Native.String.{String}

unfoldable pub content_types_4 : List (String × String)
content_types_4 =
    ("ocl", "text/x-ocl")
    ∷ ("oda", "application/oda")
    ∷ ("odb", "application/vnd.oasis.opendocument.database")
    ∷ ("odc", "application/vnd.oasis.opendocument.chart")
    ∷ ("odf", "application/vnd.oasis.opendocument.formula")
    ∷ ("odg", "application/vnd.oasis.opendocument.graphics")
    ∷ ("odi", "application/vnd.oasis.opendocument.image")
    ∷ ("odm", "application/vnd.oasis.opendocument.text-master")
    ∷ ("odp", "application/vnd.oasis.opendocument.presentation")
    ∷ ("ods", "application/vnd.oasis.opendocument.spreadsheet")
    ∷ ("odt", "application/vnd.oasis.opendocument.text")
    ∷ ("oga", "audio/ogg")
    ∷ ("ogg", "video/x-theora+ogg")
    ∷ ("ogm", "video/x-ogm+ogg")
    ∷ ("ogv", "video/ogg")
    ∷ ("ogx", "application/ogg")
    ∷ ("old", "application/x-trash")
    ∷ ("oleo", "application/x-oleo")
    ∷ ("opml", "text/x-opml+xml")
    ∷ ("ora", "image/openraster")
    ∷ ("orf", "image/x-olympus-orf")
    ∷ ("otc", "application/vnd.oasis.opendocument.chart-template")
    ∷ ("otf", "application/x-font-otf")
    ∷ ("otg", "application/vnd.oasis.opendocument.graphics-template")
    ∷ ("oth", "application/vnd.oasis.opendocument.text-web")
    ∷ ("otp", "application/vnd.oasis.opendocument.presentation-template")
    ∷ ("ots", "application/vnd.oasis.opendocument.spreadsheet-template")
    ∷ ("ott", "application/vnd.oasis.opendocument.text-template")
    ∷ ("owl", "application/rdf+xml")
    ∷ ("oxt", "application/vnd.openofficeorg.extension")
    ∷ ("p", "text/x-pascal")
    ∷ ("p10", "application/pkcs10")
    ∷ ("p12", "application/x-pkcs12")
    ∷ ("p7b", "application/x-pkcs7-certificates")
    ∷ ("p7s", "application/pkcs7-signature")
    ∷ ("pack", "application/x-java-pack200")
    ∷ ("pak", "application/x-pak")
    ∷ ("par2", "application/x-par2")
    ∷ ("pas", "text/x-pascal")
    ∷ ("patch", "text/x-patch")
    ∷ ("pbm", "image/x-portable-bitmap")
    ∷ ("pcd", "image/x-photo-cd")
    ∷ ("pcf", "application/x-cisco-vpn-settings")
    ∷ ("pcf.gz", "application/x-font-pcf")
    ∷ ("pcf.z", "application/x-font-pcf")
    ∷ ("pcl", "application/vnd.hp-pcl")
    ∷ ("pcx", "image/x-pcx")
    ∷ ("pdb", "chemical/x-pdb")
    ∷ ("pdc", "application/x-aportisdoc")
    ∷ ("pdf", "application/pdf")
    ∷ ("pdf.bz2", "application/x-bzpdf")
    ∷ ("pdf.gz", "application/x-gzpdf")
    ∷ ("pef", "image/x-pentax-pef")
    ∷ ("pem", "application/x-x509-ca-cert")
    ∷ ("perl", "application/x-perl")
    ∷ ("pfa", "application/x-font-type1")
    ∷ ("pfb", "application/x-font-type1")
    ∷ ("pfx", "application/x-pkcs12")
    ∷ ("pgm", "image/x-portable-graymap")
    ∷ ("pgn", "application/x-chess-pgn")
    ∷ ("pgp", "application/pgp-encrypted")
    ∷ ("php", "application/x-php")
    ∷ ("php3", "application/x-php")
    ∷ ("php4", "application/x-php")
    ∷ ("pict", "image/x-pict")
    ∷ ("pict1", "image/x-pict")
    ∷ ("pict2", "image/x-pict")
    ∷ ("pickle", "application/python-pickle")
    ∷ ("pk", "application/x-tex-pk")
    ∷ ("pkipath", "application/pkix-pkipath")
    ∷ ("pkr", "application/pgp-keys")
    ∷ ("pl", "application/x-perl")
    ∷ ("pla", "audio/x-iriver-pla")
    ∷ ("pln", "application/x-planperfect")
    ∷ ("pls", "audio/x-scpls")
    ∷ ("pm", "application/x-perl")
    ∷ ("png", "image/png")
    ∷ ("pnm", "image/x-portable-anymap")
    ∷ ("pntg", "image/x-macpaint")
    ∷ ("po", "text/x-gettext-translation")
    ∷ ("por", "application/x-spss-por")
    ∷ ("pot", "text/x-gettext-translation-template")
    ∷ ("ppm", "image/x-portable-pixmap")
    ∷ ("pps", "application/vnd.ms-powerpoint")
    ∷ ("ppt", "application/vnd.ms-powerpoint")
    ∷ ("pptm", "application/vnd.openxmlformats-officedocument.presentationml.presentation")
    ∷ ("pptx", "application/vnd.openxmlformats-officedocument.presentationml.presentation")
    ∷ ("ppz", "application/vnd.ms-powerpoint")
    ∷ ("prc", "application/x-palm-database")
    ∷ ("ps", "application/postscript")
    ∷ ("ps.bz2", "application/x-bzpostscript")
    ∷ ("ps.gz", "application/x-gzpostscript")
    ∷ ("psd", "image/vnd.adobe.photoshop")
    ∷ ("psf", "audio/x-psf")
    ∷ ("psf.gz", "application/x-gz-font-linux-psf")
    ∷ ("psflib", "audio/x-psflib")
    ∷ ("psid", "audio/prs.sid")
    ∷ ("psw", "application/x-pocket-word")
    ∷ ("pw", "application/x-pw")
    ∷ ("py", "text/x-python")
    ∷ ("pyc", "application/x-python-bytecode")
    ∷ ("pyo", "application/x-python-bytecode")
    ∷ ("qif", "image/x-quicktime")
    ∷ ("qt", "video/quicktime")
    ∷ ("qtif", "image/x-quicktime")
    ∷ ("qtl", "application/x-quicktime-media-link")
    ∷ ("qtvr", "video/quicktime")
    ∷ ("ra", "audio/vnd.rn-realaudio")
    ∷ ("raf", "image/x-fuji-raf")
    ∷ ("ram", "application/ram")
    ∷ ("rar", "application/x-rar")
    ∷ ("ras", "image/x-cmu-raster")
    ∷ ("raw", "image/x-panasonic-raw")
    ∷ ("rax", "audio/vnd.rn-realaudio")
    ∷ ("rb", "application/x-ruby")
    ∷ []
