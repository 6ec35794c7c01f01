-- ===== src/Tests/Clearings.antt =====
-- The same network: the deletion of the upload, and the deletion before the copy.
use mathlib.Core.List.Perm
use mathlib.Core.Option.{some-injective, none-ne-some}
use eggdfs.Base.{
  ℕ, ◌≡◌, ◌≢◌, refl, sym, ap, ◌∙◌, subst, true, false, Option, some, none, List, [], ◌∷◌, ◌++◌,
  Outcome, done, Result, ok, ◌==◌, length, arith, inl, inr, Bool-cases,
}
use eggdfs.Base.Dict.{Dict, lookup, lookup-nil}
use eggdfs.Base.Text.{Text, text_eq, text_eq_iff}
use eggdfs.Base.Visit.{backwards}
use eggdfs.Cluster.Network.{Node, url_of}
use eggdfs.Cluster.Network.Converge.{held, Serves}
use eggdfs.Cluster.Network.Race.{overtaken, deletion_overtakes}
use eggdfs.Cluster.{static_file, content_of}
use eggdfs.Storage.Place.{HasRoom}
use eggdfs.Cluster.Network.Clear.{run_deletions}
use eggdfs.Cluster.Network.Clear.Deletions.{CanDelete, deletion_converges}
use eggdfs.Tests.Removals.{once}
use eggdfs.Tracker.Delete.{delete}
use eggdfs.Db.Memory.{memory, no_entries}
use eggdfs.Disk.{calm, file, dir}
use eggdfs.Group.{StorageServer, Group, get_storage}
use eggdfs.Storage.{Storage, Answer, answer, slash}
use eggdfs.Tracker.Sync.{DeleteFile, delete_accepted}
use eggdfs.Tests.{group_name, addr_a, node_a, node_b, pair}
use eggdfs.Tests.Clusters.{folder, n-ne-nil}
use eggdfs.Tests.Selection.{pair_at, a_in_pair}
use eggdfs.Tests.Storages.{run, name-plain, name-ne-nil, empty_disk-HasRoom}
use eggdfs.Tests.Trackers.{json, tracker_of-IsSound}
use eggdfs.Tracker.{get_group}
use eggdfs.Util.{gen_file_name}
use eggdfs.Tests.Networks.{
  web, url_read, copy_arrives, body_of, first_node, second_node, network, pair-cases, urls-differ,
  at_a, at_b, success_read,
}

abbrev leaf : Text
leaf = gen_file_name (b'7' ∷ []) (b'x' ∷ b'.' ∷ b'y' ∷ [])

abbrev unwanted : DeleteFile
unwanted = record { file_id = []; group = group_name; md5 = []; file = slash folder leaf }

photo_at_a :
    lookup (slash (b'm' ∷ []) (slash folder leaf)) run.1.disk ≡ some (file (b'c' ∷ b'd' ∷ []))
unfolding eggdfs.Storage.Upload.quick_upload lookup text_eq eggdfs.Base.Dict.insert
photo_at_a = refl

a-CanDelete :
    CanDelete memory json body_of [] group_name unwanted folder leaf refl name-plain network.nodes
      node_a
a-CanDelete = record {
  up = λ e. omega arith;
  can = record { node = first_node; at = at_a; once = once; free = λ e. cc (sym photo_at_a ∙ e) };
}

b-CanDelete :
    CanDelete memory json body_of [] group_name unwanted folder leaf refl name-plain network.nodes
      node_b
b-CanDelete = record {
  up = λ e. omega arith;
  can = record {
    node = second_node;
    at = at_b;
    once = tt;
    free = λ e. none-ne-some dir (sym (lookup-nil (slash (b'n' ∷ []) (slash folder leaf))) ∙ e);
  };
}

pair-CanDelete :
    (server : StorageServer)
    → get_storage server.addr pair ≡ some server
    → CanDelete memory json body_of [] group_name unwanted folder leaf refl name-plain network.nodes
        server
unfolding get_storage lookup
pair-CanDelete server reg = elim (Bool-cases (text_eq addr_a server.addr)) [
  | inl same ↦
      subst
        (CanDelete memory json body_of [] group_name unwanted folder leaf refl name-plain
          network.nodes)
        (some-injective node_a server (
          sym a_in_pair
          ∙ ap (λ a. get_storage a pair) ((text_eq_iff addr_a server.addr).0 same)
          ∙ reg))
        a-CanDelete
  | inr away ↦
      subst
        (CanDelete memory json body_of [] group_name unwanted folder leaf refl name-plain
          network.nodes)
        (sym (pair-cases server reg (λ e. cc (away, (text_eq_iff addr_a server.addr).1 (sym e)))))
        b-CanDelete
]

deletes :
    delete backwards true unwanted network.tracker
    ≡ done (20000 ∷ [], some node_a ∷ some node_b ∷ [])
unfolding delete text_eq lookup get_group eggdfs.Group.get_storages eggdfs.Base.Sort.sort_strings
    eggdfs.Base.Dict.values
deletes = refl

deletion_read : delete_accepted json (ok (body_of (some (answer 20000 [])))) ≡ true
unfolding delete_accepted
deletion_read = refl

deletion_converges_example :
    (nodes : Dict (Node memory.State)) × (run_deletions memory json body_of [] group_name unwanted
        calm
        (some node_b ∷ some node_a ∷ [])
        network
      ≡ done (record network { nodes = nodes }))
    × ((server : StorageServer)
        → get_storage server.addr pair ≡ some server
        → held (slash folder leaf) nodes (url_of server) ≡ none)
    × ((u : Text)
        → held (slash folder leaf) network.nodes u ≡ none
        → held (slash folder leaf) nodes u ≡ none)
deletion_converges_example =
    deletion_converges memory json body_of [] group_name unwanted folder leaf refl name-plain
      backwards network (tracker_of-IsSound no_entries) pair (pair_at no_entries) pair-CanDelete
      deletion_read (some node_a ∷ some node_b ∷ []) (some node_b ∷ some node_a ∷ []) deletes
      (Perm.swap (some node_a) (some node_b) [])

abbrev photo_content : Text
photo_content = b'c' ∷ b'd' ∷ []

two_bytes : length photo_content ≢ 0
two_bytes e = absurd (omega (arith, e))

a-Serves :
    Serves memory json web body_of [] folder leaf photo_content node_a group_name
      (b'i' ∷ [])
      run.0.headers.file_hash
      network.nodes
unfolding static_file content_of
a-Serves = record {
  node = first_node;
  at = at_a;
  reads = url_read;
  within = refl;
  holds = ap content_of photo_at_a;
}

b-HasRoom : HasRoom (slash (b'n' ∷ []) folder) leaf []
b-HasRoom = empty_disk-HasRoom (slash (b'n' ∷ []) folder) leaf n-ne-nil name-plain name-ne-nil

deletion_overtakes_example :
    (nodes : Dict (Node memory.State)) × (overtaken memory json web body_of [] folder leaf
        photo_content two_bytes name-plain node_a node_b group_name
        (b'i' ∷ [])
        run.0.headers.file_hash
        unwanted
        refl
        network
      ≡ done (record network { nodes = nodes }))
    × (held (slash folder leaf) nodes (url_of node_b) ≡ some photo_content)
    × (held (slash folder leaf) nodes (url_of node_a) ≡ none)
unfolding b-CanDelete
deletion_overtakes_example =
    deletion_overtakes memory json web body_of [] folder leaf photo_content two_bytes name-plain
      node_a node_b group_name (b'i' ∷ []) run.0.headers.file_hash unwanted refl network
      success_read deletion_read refl refl urls-differ a-Serves a-CanDelete.can b-CanDelete.can
      b-HasRoom copy_arrives
