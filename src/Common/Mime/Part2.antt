-- ===== src/Common/Mime/Part2.antt =====
-- Entries 116 to 230 of `FileContentType` (common/const.go).
use eggdfs.Base.{List, [], ◌∷◌}
use Prim.Native.String.{String}

unfoldable pub content_types_2 : List (String × String)
content_types_2 =
    ("dtx", "text/x-tex")
    ∷ ("dv", "video/dv")
    ∷ ("dvi", "application/x-dvi")
    ∷ ("dvi.bz2", "application/x-bzdvi")
    ∷ ("dvi.gz", "application/x-gzdvi")
    ∷ ("dwg", "image/vnd.dwg")
    ∷ ("dxf", "image/vnd.dxf")
    ∷ ("e", "text/x-eiffel")
    ∷ ("egon", "application/x-egon")
    ∷ ("eif", "text/x-eiffel")
    ∷ ("el", "text/x-emacs-lisp")
    ∷ ("emf", "image/x-emf")
    ∷ ("emp", "application/vnd.emusic-emusic_package")
    ∷ ("ent", "application/xml-external-parsed-entity")
    ∷ ("eps", "image/x-eps")
    ∷ ("eps.bz2", "image/x-bzeps")
    ∷ ("eps.gz", "image/x-gzeps")
    ∷ ("epsf", "image/x-eps")
    ∷ ("epsf.bz2", "image/x-bzeps")
    ∷ ("epsf.gz", "image/x-gzeps")
    ∷ ("epsi", "image/x-eps")
    ∷ ("epsi.bz2", "image/x-bzeps")
    ∷ ("epsi.gz", "image/x-gzeps")
    ∷ ("epub", "application/epub+zip")
    ∷ ("erl", "text/x-erlang")
    ∷ ("es", "application/ecmascript")
    ∷ ("etheme", "application/x-e-theme")
    ∷ ("etx", "text/x-setext")
    ∷ ("exe", "application/x-ms-dos-executable")
    ∷ ("exr", "image/x-exr")
    ∷ ("ez", "application/andrew-inset")
    ∷ ("f", "text/x-fortran")
    ∷ ("f90", "text/x-fortran")
    ∷ ("f95", "text/x-fortran")
    ∷ ("fb2", "application/x-fictionbook+xml")
    ∷ ("fig", "image/x-xfig")
    ∷ ("fits", "image/fits")
    ∷ ("fl", "application/x-fluid")
    ∷ ("flac", "audio/x-flac")
    ∷ ("flc", "video/x-flic")
    ∷ ("fli", "video/x-flic")
    ∷ ("flv", "video/x-flv")
    ∷ ("flw", "application/x-kivio")
    ∷ ("fo", "text/x-xslfo")
    ∷ ("for", "text/x-fortran")
    ∷ ("g3", "image/fax-g3")
    ∷ ("gb", "application/x-gameboy-rom")
    ∷ ("gba", "application/x-gba-rom")
    ∷ ("gcrd", "text/directory")
    ∷ ("ged", "application/x-gedcom")
    ∷ ("gedcom", "application/x-gedcom")
    ∷ ("gen", "application/x-genesis-rom")
    ∷ ("gf", "application/x-tex-gf")
    ∷ ("gg", "application/x-sms-rom")
    ∷ ("gif", "image/gif")
    ∷ ("glade", "application/x-glade")
    ∷ ("gmo", "application/x-gettext-translation")
    ∷ ("gnc", "application/x-gnucash")
    ∷ ("gnd", "application/gnunet-directory")
    ∷ ("gnucash", "application/x-gnucash")
    ∷ ("gnumeric", "application/x-gnumeric")
    ∷ ("gnuplot", "application/x-gnuplot")
    ∷ ("gp", "application/x-gnuplot")
    ∷ ("gpg", "application/pgp-encrypted")
    ∷ ("gplt", "application/x-gnuplot")
    ∷ ("gra", "application/x-graphite")
    ∷ ("gsf", "application/x-font-type1")
    ∷ ("gsm", "audio/x-gsm")
    ∷ ("gtar", "application/x-tar")
    ∷ ("gv", "text/vnd.graphviz")
    ∷ ("gvp", "text/x-google-video-pointer")
    ∷ ("gz", "application/x-gzip")
    ∷ ("h", "text/x-chdr")
    ∷ ("h++", "text/x-c++hdr")
    ∷ ("hdf", "application/x-hdf")
    ∷ ("hh", "text/x-c++hdr")
    ∷ ("hp", "text/x-c++hdr")
    ∷ ("hpgl", "application/vnd.hp-hpgl")
    ∷ ("hpp", "text/x-c++hdr")
    ∷ ("hs", "text/x-haskell")
    ∷ ("htm", "text/html")
    ∷ ("html", "text/html")
    ∷ ("hwp", "application/x-hwp")
    ∷ ("hwt", "application/x-hwt")
    ∷ ("hxx", "text/x-c++hdr")
    ∷ ("ica", "application/x-ica")
    ∷ ("icb", "image/x-tga")
    ∷ ("icns", "image/x-icns")
    ∷ ("ico", "image/vnd.microsoft.icon")
    ∷ ("ics", "text/calendar")
    ∷ ("idl", "text/x-idl")
    ∷ ("ief", "image/ief")
    ∷ ("iff", "image/x-iff")
    ∷ ("ilbm", "image/x-ilbm")
    ∷ ("ime", "text/x-imelody")
    ∷ ("imy", "text/x-imelody")
    ∷ ("ins", "text/x-tex")
    ∷ ("iptables", "text/x-iptables")
    ∷ ("iso", "application/x-cd-image")
    ∷ ("iso9660", "application/x-cd-image")
    ∷ ("it", "audio/x-it")
    ∷ ("j2k", "image/jp2")
    ∷ ("jad", "text/vnd.sun.j2me.app-descriptor")
    ∷ ("jar", "application/x-java-archive")
    ∷ ("java", "text/x-java")
    ∷ ("jng", "image/x-jng")
    ∷ ("jnlp", "application/x-java-jnlp-file")
    ∷ ("jp2", "image/jp2")
    ∷ ("jpc", "image/jp2")
    ∷ ("jpe", "image/jpeg")
    ∷ ("jpeg", "image/jpeg")
    ∷ ("jpf", "image/jp2")
    ∷ ("jpg", "image/jpeg")
    ∷ ("webp", "image/webp")
    ∷ ("jpr", "application/x-jbuilder-project")
    ∷ []
