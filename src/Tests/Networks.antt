-- ===== src/Tests/Networks.antt =====
-- A tracker and two storages: an upload to the first, with its copy.
use mathlib.Core.List.Perm
use mathlib.Core.Option.{some-injective}
use eggdfs.Base.{
  ℕ, ◌-◌, ◌&&◌, ◌||◌, if◌then◌else◌, ◌≡◌, ◌≢◌, refl, sym, ap, ◌∙◌, subst, true, false, Option, some,
  none, List, [], ◌∷◌, ◌++◌, Outcome, done, Result, ok, ◌==◌, length, arith, inl, inr, Bool-cases,
}
use eggdfs.Base.Dict.{Dict, lookup, lookup-nil}
use eggdfs.Base.Text.{Text, bytes, text_eq, text_eq_iff, has_byte}
use eggdfs.Base.Visit.{backwards}
use eggdfs.Cluster.Network.{Web, Node, Network, url_of, run_copies}
use eggdfs.Cluster.Network.Converge.{held, CanTake}
use eggdfs.Cluster.Network.Uploads.{IsReady, upload_converges}
use eggdfs.Db.Memory.{memory, no_entries}
use eggdfs.Disk.{calm}
use eggdfs.Group.{StorageServer, Group, get_storage}
use eggdfs.Storage.{Storage, Answer, answer, slash}
use eggdfs.Tracker.Sync.{sync_accepted}
use eggdfs.Storage.Upload.{FormFile}
use eggdfs.Tests.{group_name, addr_a, addr_b, node_a, node_b, pair}
use eggdfs.Tests.Clusters.{folder, saved_name, other_conf, room_at_other, id-plain, photo-filled}
use eggdfs.Tests.Selection.{pair_at, a_in_pair}
use eggdfs.Tests.Storages.{conf, digest, today, request, empty_storage, run, run-Stored}
use eggdfs.Tests.Trackers.{json, tracker_of, tracker_of-IsSound}
use eggdfs.Tracker.{Tracker, get_group}
use eggdfs.Tracker.Proxy.{relayed, separator, address_url}
use eggdfs.Tracker.Upload.{SyncTask, sync_info, replicate_upload}
use eggdfs.Util.{gen_file_name, gen_file_path}

abbrev pub body_of : Option Answer → Text
body_of a = b'{' ∷ []

abbrev pub first_node : Node memory.State
first_node = record { config = conf; storage = run.1 }

abbrev pub second_node : Node memory.State
second_node = record { config = other_conf; storage = empty_storage }

abbrev pub network : Network memory.State
network = record {
  tracker = tracker_of no_entries pair;
  nodes = (url_of node_a, first_node) ∷ (url_of node_b, second_node) ∷ [];
}

abbrev pub copied_name : Text
copied_name = gen_file_name (b'7' ∷ []) (b'x' ∷ b'.' ∷ b'y' ∷ [])

abbrev pub copy : SyncTask
copy = (
  node_b,
  sync_info node_a node_b group_name (b'i' ∷ []) folder copied_name run.0.headers.file_hash,
)

-- The URL after `n` slashes more, in two parts.
unfoldable cut_url : ℕ → Text → Option (Text × Text)
cut_url n [] = none
cut_url n (c ∷ url) =
    let rest = cut_url (if c == b'/' then n - 1 else n) url in
    if (c == b'/') && (n == 0)
    then some ([], url)
    else elim rest [ none ↦ none | some (host, path) ↦ some (c ∷ host, path) ]

-- A client that takes no URL with a character that an escape or a suffix would begin with.
unfoldable plain_url : Text → Option (Text × Text)
unfolding cut_url
plain_url url =
    if has_byte b'#' url || has_byte b'?' url || has_byte b'%' url then none else cut_url 2 url

unfoldable pub web : Web
unfolding plain_url
web = record {
  asked = plain_url;
  elsewhere = λ path. record { status = 404; body = b'4' ∷ [] };
  bind = λ body. copy.1;
}

pub url_read :
    web.asked (slash (url_of node_a) (slash group_name (slash folder copied_name)))
    ≡ some (url_of node_a, slash group_name (slash folder copied_name))
unfolding web address_url separator bytes has_byte slash gen_file_path text_eq gen_file_name
url_read = refl

pub copy_arrives : web.bind (json.marshal_sync copy.1) ≡ copy.1
unfolding web
copy_arrives = refl

saved_same : copied_name ≡ saved_name
saved_same =
    ap (λ (form : FormFile). gen_file_name (b'7' ∷ []) form.filename)
      (some-injective _ _ run-Stored.sent)

saved_url_read :
    web.asked (slash (url_of node_a) (slash group_name (slash folder saved_name)))
    ≡ some (url_of node_a, slash group_name (slash folder saved_name))
saved_url_read =
    subst
      (λ name.
        web.asked (slash (url_of node_a) (slash group_name (slash folder name)))
        ≡ some (url_of node_a, slash group_name (slash folder name)))
      saved_same url_read

-- The registered servers are the two of the pair.
pub pair-cases :
    (server : StorageServer)
    → get_storage server.addr pair ≡ some server
    → server.addr ≢ addr_a
    → server ≡ node_b
unfolding get_storage lookup
pair-cases server reg other = elim (Bool-cases (text_eq addr_b server.addr)) [
  | inl same ↦ some-injective server node_b (sym reg ∙ rw same)
  | inr differ ↦ elim (Bool-cases (text_eq addr_a server.addr)) [
    | inl same ↦ absurd (other (sym ((text_eq_iff addr_a server.addr).0 same)))
    | inr away ↦ cc (rw (differ, away) at reg)
  ]
]

pub urls-differ : url_of node_b ≢ url_of node_a
unfolding address_url text_eq separator bytes
urls-differ e =
    let bad : true ≡ false = sym ((text_eq_iff (url_of node_b) (url_of node_a)).1 e) in cc (bad)

pub at_a : lookup (url_of node_a) network.nodes ≡ some first_node
unfolding lookup text_eq address_url separator bytes
at_a = refl

pub at_b : lookup (url_of node_b) network.nodes ≡ some second_node
unfolding lookup text_eq address_url separator bytes
at_b = refl

started :
    replicate_upload backwards node_a group_name (b'i' ∷ []) (relayed run.0.headers) network.tracker
    ≡ done (copy ∷ [])
unfolding replicate_upload text_eq eggdfs.Storage.Upload.quick_upload lookup eggdfs.Base.Dict.insert
    eggdfs.Tracker.Upload.success_text bytes eggdfs.Util.parse_header_file_path get_group
    eggdfs.Group.get_storages eggdfs.Base.Sort.sort_strings eggdfs.Base.Dict.values
started = refl

abbrev full_name : Text
full_name = slash folder saved_name

b-CanTake :
    CanTake memory json web body_of [] folder saved_name run-Stored.form.content node_a group_name
      (b'i' ∷ [])
      run.0.headers.file_hash
      network.nodes
      node_b
b-CanTake = record {
  node = second_node;
  at = at_b;
  room = room_at_other;
  arrives =
      subst
        (λ name.
          web.bind (json.marshal_sync copy.1)
          ≡ sync_info node_a node_b group_name (b'i' ∷ []) folder name run.0.headers.file_hash)
        saved_same copy_arrives;
}

network-IsReady :
    IsReady memory json web body_of [] digest calm conf folder request empty_storage run.1 run.0
      run-Stored network pair node_a group_name
      (b'i' ∷ [])
network-IsReady = record {
  active = λ server reg other. ap (λ z. z.status) (pair-cases server reg other);
  apart = λ server reg other e. urls-differ (ap url_of (sym (pair-cases server reg other)) ∙ e);
  can = λ server reg other.
      subst
        (CanTake memory json web body_of [] folder saved_name run-Stored.form.content node_a
          group_name (b'i' ∷ []) run.0.headers.file_hash network.nodes)
        (sym (pair-cases server reg other)) b-CanTake;
}

pub success_read : sync_accepted json (ok (body_of (some (answer 20000 [])))) ≡ true
unfolding sync_accepted
success_read = refl

upload_converges_example :
    (nodes : Dict (Node memory.State)) × (run_copies memory json web body_of [] calm
        (copy ∷ [])
        network
      ≡ done (record network { nodes = nodes }))
    × ((server : StorageServer)
        → get_storage server.addr pair ≡ some server
        → held full_name nodes (url_of server) ≡ some run-Stored.form.content)
upload_converges_example =
    upload_converges memory json web body_of [] digest calm conf (gen_file_path today (b'z' ∷ []))
      request empty_storage run.1 run.0 run-Stored backwards network (tracker_of-IsSound no_entries)
      pair node_a group_name (b'i' ∷ []) (pair_at no_entries) a_in_pair id-plain photo-filled at_a
      refl saved_url_read network-IsReady success_read (copy ∷ []) (copy ∷ []) started (Perm.refl _)
