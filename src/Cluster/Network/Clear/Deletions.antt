-- ===== src/Cluster/Network/Clear/Deletions.antt =====
-- A deletion, once the goroutines that carry it out have run.
use mathlib.Core.List.{Mem, mem-cons, not-mem-nil}
use mathlib.Core.Logic.Or
use mathlib.Core.Option.{some-injective, none-ne-some}
use eggdfs.Base.{
  ◌≡◌, ◌≢◌, ◌⊎◌, refl, sym, ap, ◌∙◌, subst, inl, inr, true, false, Option, none, some, [], ◌∷◌,
  done, ok, Bool-cases, done-injective,
}
use eggdfs.Base.Dict.{Dict, lookup, insert, NodupKeys, lookup-insert}
use eggdfs.Base.Text.{Text, text_eq, text_eq_iff, has_byte}
use eggdfs.Cluster.{content_of, static_file}
use eggdfs.Cluster.Network.{Node, Network, url_of}
use eggdfs.Cluster.Network.Converge.{held, held-set}
use eggdfs.Common.Const.{success, storage_offline}
use eggdfs.Common.Json.{Json}
use eggdfs.Db.{LevelDb}
use eggdfs.Disk.{calm, dir}
use eggdfs.Group.{StorageServer}
use eggdfs.Storage.{Answer, answer, slash}
use eggdfs.Tracker.Sync.{DeleteFile, delete_accepted}
use mathlib.Core.List.{Perm}
use mathlib.Core.List.Perm
use eggdfs.Base.Visit.{Visit}
use eggdfs.Group.{Group, get_storage, get_storages}
use eggdfs.Group.Storages.{get_storages_complete}
use eggdfs.Tracker.{IsSound, get_group}
use eggdfs.Tracker.Delete.{Started, delete}
use eggdfs.Tracker.Delete.Tasks.{delete_run}
use eggdfs.Tracker.Query.Laws.{group-IsWell}
use eggdfs.Cluster.Network.Clear.{run_deletions, CanClear, deletion_step}

module _ (D : LevelDb) (J : Json) (reply : Option Answer → Text) (refused : Text) (group : Text)
    (file : DeleteFile) (base leaf : Text) (path : file.file ≡ slash base leaf)
    (clean : has_byte b'/' leaf ≡ false) where
  -- The server is not offline, and its storage can delete the file.
  pub record CanDelete (nodes : Dict (Node D.State)) (server : StorageServer) : Type 0 where
    pub up : server.status ≢ storage_offline
    pub can : CanClear D J reply refused group file base leaf path clean nodes server

  CanDelete-insert :
      (nodes : Dict (Node D.State)) (url : Text) (n : Node D.State) (server : StorageServer)
      → lookup (slash n.config.storage.storage_dir (slash base leaf)) n.storage.disk ≡ none
      → NodupKeys n.storage.disk
      → CanDelete nodes server
      → CanDelete (insert url n nodes) server
  CanDelete-insert nodes url n server gone once c =
      elim (Bool-cases (text_eq url (url_of server))) [
        | inl same ↦ record {
          up = c.up;
          can = record {
            node = n;
            at = lookup-insert url (url_of server) n nodes ∙ rw same;
            once = once;
            free = λ e. none-ne-some dir (sym gone ∙ e);
          };
        }
        | inr differ ↦ record {
          up = c.up;
          can = record {
            node = c.can.node;
            at = lookup-insert url (url_of server) n nodes ∙ rw differ c.can.at;
            once = c.can.once;
            free = c.can.free;
          };
        }
      ]

  empty-insert :
      (nodes : Dict (Node D.State)) (url u : Text) (n : Node D.State)
      → lookup (slash n.config.storage.storage_dir (slash base leaf)) n.storage.disk ≡ none
      → (text_eq url u ≡ true) ⊎ (held (slash base leaf) nodes u ≡ none)
      → held (slash base leaf) (insert url n nodes) u ≡ none
  unfolding held static_file content_of
  empty-insert nodes url u n gone before = elim (Bool-cases (text_eq url u)) [
    | inl same ↦
        let here : lookup u (insert url n nodes) ≡ some n = lookup-insert url u n nodes ∙ rw same in
        rw (held, here, gone)
    | inr differ ↦
        let here : lookup u (insert url n nodes) ≡ lookup u nodes =
          lookup-insert url u n nodes ∙ rw differ in
        elim before [ inl same ↦ cc (same, differ) | inr old ↦ rw (held, here) old ]
  ]

  run_deletions_lem :
      (started : Started) (k : Network D.State)
      → delete_accepted J (ok (reply (some (answer success [])))) ≡ true
      → ¬ Mem none started
      → ((server : StorageServer) → Mem (some server) started → CanDelete k.nodes server)
      → (nodes : Dict (Node D.State)) × (run_deletions D J reply refused group file calm started k
          ≡ done (record k { nodes = nodes }))
        × ((u : Text)
            → held (slash base leaf) k.nodes u ≡ none
            → held (slash base leaf) nodes u ≡ none)
        × ((server : StorageServer)
            → Mem (some server) started
            → held (slash base leaf) nodes (url_of server) ≡ none)
  unfolding run_deletions
  run_deletions_lem [] k accepted no_nil can =
      (k.nodes, refl, (λ u h. h), λ server m. absurd (not-mem-nil m))
  run_deletions_lem (none ∷ rest) k accepted no_nil can = absurd (no_nil (mem-cons.1 (Or.inl refl)))
  run_deletions_lem (some server ∷ rest) k accepted no_nil can =
      let first = can server (mem-cons.1 (Or.inl refl)) in
      let (b, run, gone, same, once) =
        deletion_step D J reply refused group file base leaf path clean server k accepted first.up
          first.can in
      let n : Node D.State = record first.can.node { storage = b } in
      let here = insert (url_of server) n k.nodes in
      let (nodes, runs, keeps, reaches) =
        run_deletions_lem rest (record k { nodes = here }) accepted
          (λ m. no_nil (mem-cons.1 (Or.inr m)))
          (λ other m.
            CanDelete-insert k.nodes (url_of server) n other gone once
              (can other (mem-cons.1 (Or.inr m)))) in
      (
        nodes,
        rw (run_deletions, run) runs,
        (λ u h. keeps u (empty-insert k.nodes (url_of server) u n gone (inr h))),
        λ other m.
            Or.elim (held-set _ _) (mem-cons.0 m)
              (λ same. keeps (url_of other) (
                empty-insert k.nodes (url_of server) (url_of other) n gone
                  (inl ((text_eq_iff _ _).1 (ap url_of (some-injective server other (sym same)))))))
              (λ i. reaches other i),
      )

  -- A deletion of a path `base/leaf`, without a slash in `leaf`, in a registered group of a sound tracker:
  -- let the goroutines run that the handler starts, one after the other in any order. If every registered
  -- server of the group is not offline and stands at its URL, with a disk that lists no path twice and no
  -- directory in the place of the file, the systems refuse nothing, and a success reads as one, then in
  -- the end no registered server of the group serves that path, no URL serves it that did not before, and
  -- the tracker, with its log, is as it was.
  pub deletion_converges :
      (v : Visit StorageServer) (k : Network D.State) (sound : IsSound k.tracker) (g : Group)
      → get_group file.group k.tracker ≡ some g
      → ((server : StorageServer)
          → get_storage server.addr g ≡ some server
          → CanDelete k.nodes server)
      → delete_accepted J (ok (reply (some (answer success [])))) ≡ true
      → (started ran : Started) → delete v true file k.tracker ≡ done (success ∷ [], started)
      → Perm ran started
      → (nodes : Dict (Node D.State)) × (run_deletions D J reply refused group file calm ran k
          ≡ done (record k { nodes = nodes }))
        × ((server : StorageServer)
            → get_storage server.addr g ≡ some server
            → held (slash base leaf) nodes (url_of server) ≡ none)
        × ((u : Text)
            → held (slash base leaf) k.nodes u ≡ none
            → held (slash base leaf) nodes u ≡ none)
  deletion_converges v k sound g at can accepted started ran run order =
      let (no_nil, listed) =
        get_storages_complete v g (group-IsWell k.tracker sound file.group g at) in
      let q : get_storages v g ≡ started =
        ap (λ z. z.1)
          (done-injective _ _ (sym (delete_run D J v true file k.tracker g at) ∙ run)) in
      let known = λ (o : Option StorageServer) (m : Mem o ran).
        subst (Mem o) (sym q) ((Perm.mem_iff order).0 m) in
      let (nodes, runs, keeps, reaches) =
        run_deletions_lem ran k accepted (λ m. no_nil (known none m))
          (λ server m. can server ((listed server).0 (known (some server) m))) in
      (
        nodes,
        runs,
        (λ server reg.
            reaches server
              ((Perm.mem_iff order).1 (subst (Mem (some server)) q ((listed server).1 reg)))),
        keeps,
      )
