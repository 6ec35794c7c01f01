-- ===== src/Tests/Clusters.antt =====
-- The replicas of an upload, a report of a storage, and the helpers that both use.
use mathlib.Core.List.{Mem, mem-cons, mem-map_of_mem}
use mathlib.Core.Logic.Or
use eggdfs.Base.{
  ℕ, ◌≡◌, ◌≢◌, refl, sym, ap, ◌∙◌, subst, true, false, some, List, [], ◌∷◌, ◌++◌, done, ok, length,
  arith,
}
use eggdfs.Base.Dict.{lookup}
use eggdfs.Storage.Download.Laws.{slash_assoc}
use eggdfs.Base.Text.{Text, bytes, text_eq, text_eq_iff, has_byte, join_host_port}
use eggdfs.Base.Visit.{Visit, forwards, backwards}
use eggdfs.Cluster.{static_file, content_of, params_of}
use eggdfs.Cluster.Replicas.{Copied, copy_to, upload_reaches_replicas}
use eggdfs.Cluster.Reports.{told, report_enables_upload}
use eggdfs.Conf.{GlobalConfig}
use eggdfs.Db.Memory.{memory}
use eggdfs.Disk.{calm}
use eggdfs.Group.{StorageServer, Group, get_storage}
use eggdfs.Storage.{Storage, slash, status_reports}
use eggdfs.Storage.Place.{HasRoom}
use eggdfs.Storage.Sync.{Response}
use eggdfs.Storage.Upload.{FormFile}
use eggdfs.Tests.{group_name, addr_a, addr_b, node_a, node_b, pair}
use eggdfs.Tests.Selection.{pair_at}
use eggdfs.Tests.Storages.{
  empty_disk-HasRoom, name-plain, name-ne-nil, conf, digest, today, request, empty_storage, run,
  run-Stored, photo,
}
use eggdfs.Tests.Trackers.{json, calm-IsSound}
use eggdfs.Tests.Trackers
use eggdfs.Tracker.{Tracker}
use eggdfs.Tracker.Proxy.{relayed}
use eggdfs.Tracker.Report.{storage_status_report, reported}
use eggdfs.Tracker.Report.Available.{Serves}
use eggdfs.Tracker.Report.Servers.{server_at}
use eggdfs.Tracker.Select.{select_group_for_upload}
use eggdfs.Tracker.Upload.{SyncTask, replicate_upload}
use eggdfs.Tracker.Upload.Replicas.{CopiesTo}
use eggdfs.Util.{gen_file_path, gen_file_name}
use mathlib.Core.Option.{some-injective}

pub photo-filled : length run-Stored.form.content ≢ 0
photo-filled e = cc (
  e,
  ap (λ (z : FormFile). length z.content) (some-injective photo run-Stored.form run-Stored.sent),
)

pub id-plain : has_byte b'/' (b'7' ∷ []) ≡ false
unfolding has_byte
id-plain = refl

abbrev pub folder : Text
folder = gen_file_path today (b'z' ∷ [])

abbrev pub saved_name : Text
saved_name = gen_file_name (b'7' ∷ []) run-Stored.form.filename

-- The other storage of the group, with a directory of its own, and what it gets from the first.
abbrev pub other_conf : GlobalConfig
other_conf = record conf {
  host = b'b' ∷ [];
  storage = record conf.storage { storage_dir = b'n' ∷ [] };
}

abbrev pub got_photo : Response
got_photo = record { status = 200; body = b'c' ∷ b'd' ∷ [] }

served : static_file conf run.1 (slash folder saved_name) ≡ some got_photo.body
unfolding static_file
served =
    ap (λ p. content_of (lookup p run.1.disk)) (sym (slash_assoc (b'm' ∷ []) folder saved_name))
    ∙ ap content_of run-Stored.content
    ∙ ap (λ (z : FormFile). some z.content)
        (sym (some-injective photo run-Stored.form run-Stored.sent))

pub n-ne-nil : slash (b'n' ∷ []) folder ≢ []
unfolding slash
n-ne-nil e = cc

pub room_at_other : HasRoom (slash (b'n' ∷ []) folder) saved_name []
room_at_other =
    subst
      (λ (z : FormFile).
        HasRoom (slash (b'n' ∷ []) folder) (gen_file_name (b'7' ∷ []) z.filename) [])
      (some-injective photo run-Stored.form run-Stored.sent)
      (empty_disk-HasRoom (slash (b'n' ∷ []) folder)
        (gen_file_name (b'7' ∷ []) (b'x' ∷ b'.' ∷ b'y' ∷ [])) n-ne-nil name-plain name-ne-nil)

pub b_in_pair : get_storage addr_b pair ≡ some node_b
unfolding get_storage lookup text_eq
b_in_pair = refl

pub b-ne-a : addr_b ≢ addr_a
unfolding text_eq
b-ne-a e = let bad : true ≡ false = sym ((text_eq_iff addr_b addr_a).1 e) in cc (bad)

upload_reaches_replicas_example :
    (tasks : List SyncTask) × (replicate_upload backwards node_a group_name
        (b'i' ∷ [])
        (relayed run.0.headers)
        Trackers.calm
      ≡ done tasks)
    × CopiesTo pair node_a
        (copy_to memory json digest calm conf folder request empty_storage run.1 run.0 run-Stored
          node_a group_name
          (b'i' ∷ []))
        tasks
    × Mem
        (
          node_b,
          copy_to memory json digest calm conf folder request empty_storage run.1 run.0 run-Stored
              node_a group_name
              (b'i' ∷ [])
              node_b,
        )
        tasks
    × Copied memory json digest calm conf folder request empty_storage run.1 run.0 run-Stored
        other_conf empty_storage
        (copy_to memory json digest calm conf folder request empty_storage run.1 run.0 run-Stored
          node_a group_name
          (b'i' ∷ [])
          node_b)
        got_photo
upload_reaches_replicas_example =
    upload_reaches_replicas memory json digest calm conf (gen_file_path today (b'z' ∷ [])) request
      empty_storage run.1 run.0 run-Stored backwards Trackers.calm calm-IsSound pair node_a
      group_name (b'i' ∷ []) (pair_at 7) id-plain photo-filled node_b b_in_pair b-ne-a other_conf
      empty_storage got_photo served room_at_other

abbrev reporting : Storage memory.State
reporting = record empty_storage { trackers = (b't' ∷ []) ∷ [] }

report_sent :
    Mem
      ((b't' ∷ []) ++ bytes "/status", told conf 300000 reporting)
      (status_reports conf (some 300000) reporting)
unfolding status_reports
report_sent =
    mem-map_of_mem (λ (url : Text). (url ++ bytes "/status", told conf 300000 reporting))
      {l = (b't' ∷ []) ∷ []} (mem-cons.1 (Or.inl refl))

report_enables_upload_example :
    (w : Tracker ℕ) × (storage_status_report forwards 200 230
        (params_of (told conf 300000 reporting))
        Trackers.calm
      ≡ done w)
    × (server_at group_name (join_host_port (b'a' ∷ []) (b'1' ∷ [])) w
        ≡ some (reported 200 (params_of (told conf 300000 reporting))))
    × ((vg : Visit Group) (vs : Visit StorageServer) (hash : Text → ℕ) (ip : Text)
        → (g : Group) × (select_group_for_upload vg w ≡ ok g)
          × (g.status ≡ 1)
          × Serves vs hash ip g)
report_enables_upload_example =
    report_enables_upload conf 300000 reporting forwards 200 230 Trackers.calm calm-IsSound
      ((b't' ∷ []) ++ bytes "/status") (told conf 300000 reporting) report_sent (λ e. cc) (λ e. cc)
      (λ e. cc) (omega arith) (omega arith)
