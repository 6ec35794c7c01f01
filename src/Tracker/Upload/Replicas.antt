-- ===== src/Tracker/Upload/Replicas.antt =====
-- Which replicas an upload is copied to.
use mathlib.Core.List.{Mem, Mem-prop, mem-cons, not-mem-nil}
use mathlib.Core.Logic.Or
use mathlib.Core.Option.{some-injective}
use eggdfs.Base.{
  ◌≡◌, ◌≢◌, refl, sym, ap, ◌∙◌, true, false, Option, none, some, inl, inr, List, [], ◌∷◌, done,
  panic, ◌⊎◌, ◌++◌, ◌>>=◌, if◌then◌else◌, arith, Bool-cases,
}
use eggdfs.Base.Text.{Text, Text-set, text_eq, text_eq_iff, has_byte}
use eggdfs.Base.Visit.{Visit}
use eggdfs.Common.Model.{SyncFileInfo}
use eggdfs.Group.{StorageServer, Group, get_storages, get_storage}
use eggdfs.Group.Storages.{get_storages_complete}
use eggdfs.Tracker.{Tracker, IsSound, IsEntry, get_group}
use eggdfs.Tracker.Upload.{SyncTask, sync_tasks, sync_info, replicate_upload, success_text}
use eggdfs.Tracker.Proxy.{Headers, relayed}
use eggdfs.Util.Paths.{parse_header_file_path_iff, parse_header_file_path-panic}
use eggdfs.Base.Dict.{Each-lookup}
use mathlib.Core.HLevel.{×₃_prop, Π_prop, ⊥_prop}

-- Exactly the servers of the list other than `s` have a task, each with its own record.
pub record Replicates (info : StorageServer → SyncFileInfo) (s : StorageServer)
    (l : List (Option StorageServer)) (tasks : List SyncTask) : Type 0 where
  pub sound :
      (server : StorageServer) (i : SyncFileInfo)
      → Mem (server, i) tasks
      → Mem (some server) l × (server.addr ≢ s.addr) × (i ≡ info server)
  pub complete :
      (server : StorageServer)
      → Mem (some server) l
      → server.addr ≢ s.addr
      → Mem (server, info server) tasks

info-set : IsSet SyncFileInfo
info-set = hlevel Text-set

module _ (info : StorageServer → SyncFileInfo) (s : StorageServer) where
  claim_prop :
      (l : List (Option StorageServer)) (server : StorageServer) (i : SyncFileInfo)
      → IsProp (Mem (some server) l × (server.addr ≢ s.addr) × (i ≡ info server))
  claim_prop l server i = ×₃_prop Mem-prop (Π_prop λ e. ⊥_prop) (info-set _ _)

  Replicates-cons :
      (x : StorageServer) (l : List (Option StorageServer)) (rest : List SyncTask)
      → Replicates info s l rest
      → (text_eq x.addr s.addr ≡ true) ⊎ (text_eq x.addr s.addr ≡ false)
      → Replicates info s (some x ∷ l) (if text_eq x.addr s.addr then rest else (x, info x) ∷ rest)
  Replicates-cons x l rest r (inl same) = rw same (record {
    sound = λ server i m. let (a, b, c) = r.sound server i m in (mem-cons.1 (Or.inr a), b, c);
    complete = λ server m n.
        Or.elim Mem-prop (mem-cons.0 m)
          (λ e. absurd (
            n (
              ap (λ (z : StorageServer). z.addr) (some-injective _ _ e)
              ∙ (text_eq_iff _ _).0 same)))
          (λ j. r.complete server j n);
  })
  Replicates-cons x l rest r (inr differ) = rw differ (record {
    sound = λ server i m.
        Or.elim (claim_prop (some x ∷ l) server i) (mem-cons.0 m)
          (λ e. (
            mem-cons.1 (Or.inl (ap (λ (z : SyncTask). some z.0) e)),
            other (ap (λ (z : SyncTask). z.0) e),
            ap (λ (z : SyncTask). z.1) e ∙ ap info (sym (ap (λ (z : SyncTask). z.0) e)),
          ))
          (λ j. let (a, b, c) = r.sound server i j in (mem-cons.1 (Or.inr a), b, c));
    complete = λ server m n.
        Or.elim Mem-prop (mem-cons.0 m)
          (λ e. mem-cons.1 (Or.inl (ap (λ z. (z, info z)) (some-injective _ _ e))))
          (λ j. mem-cons.1 (Or.inr (r.complete server j n)));
  })
    where
      other : {server : StorageServer} → server ≡ x → server.addr ≢ s.addr
      other e q =
          cc
            (differ, (text_eq_iff x.addr s.addr).1 (ap (λ (z : StorageServer). z.addr) (sym e) ∙ q))

  pub sync_tasks_lem :
      (l : List (Option StorageServer))
      → ¬ Mem none l
      → (tasks : List SyncTask) × (sync_tasks info s l ≡ done tasks) × Replicates info s l tasks
  unfolding sync_tasks
  sync_tasks_lem [] n = (
    [],
    refl,
    record {
      sound = λ server i m. absurd (not-mem-nil m);
      complete = λ server m. absurd (not-mem-nil m);
    },
  )
  sync_tasks_lem (none ∷ l) n = absurd (n (mem-cons.1 (Or.inl refl)))
  sync_tasks_lem (some x ∷ l) n =
      let (rest, run, r) = sync_tasks_lem l (λ m. n (mem-cons.1 (Or.inr m))) in
      (
        if text_eq x.addr s.addr then rest else (x, info x) ∷ rest,
        ap (λ o. o >>= λ q. done (if text_eq x.addr s.addr then q else (x, info x) ∷ q)) run,
        Replicates-cons x l rest r (Bool-cases (text_eq x.addr s.addr)),
      )

-- The tasks of an upload: one for each registered server of the group other than the one that
-- took the file, and no other.
pub record CopiesTo (g : Group) (s : StorageServer) (info : StorageServer → SyncFileInfo)
    (tasks : List SyncTask) : Type 0 where
  pub sound :
      (server : StorageServer) (i : SyncFileInfo)
      → Mem (server, i) tasks
      → (get_storage server.addr g ≡ some server) × (server.addr ≢ s.addr) × (i ≡ info server)
  pub complete :
      (server : StorageServer)
      → get_storage server.addr g ≡ some server
      → server.addr ≢ s.addr
      → Mem (server, info server) tasks

module _ {S : Type 0} (v : Visit StorageServer) (t : Tracker S) (sound : IsSound t) (g : Group)
    (s : StorageServer) (group uuid : Text) (h : Headers) where
  replicate_run :
      (dir name : Text) (tasks : List SyncTask)
      → get_group group t ≡ some g
      → h.upload_res ≡ success_text
      → h.file_path ≡ dir ++ (b'/' ∷ name)
      → has_byte b'/' name ≡ false
      → sync_tasks
          (λ server. sync_info s server group uuid dir name h.file_hash)
          s
          (get_storages v g)
        ≡ done tasks
      → replicate_upload v s group uuid (relayed h) t ≡ done tasks
  unfolding replicate_upload
  replicate_run dir name tasks at res path clean run =
      rw
        (
          replicate_upload,
          (text_eq_iff h.upload_res success_text).1 res,
          (parse_header_file_path_iff h.file_path dir name).1 (path, clean),
          at,
        )
        run

  -- In a sound tracker where the group is registered, after the storage `s` answered that it saved
  -- a file under `dir/name`, with no slash in `name`, the tracker starts a copy to each registered
  -- server of the group at another address than that of `s`, and to no other. Each copy has the
  -- source, the destination, the path and the hash of that file.
  pub replicate_upload_lem :
      (dir name : Text)
      → get_group group t ≡ some g
      → h.upload_res ≡ success_text
      → h.file_path ≡ dir ++ (b'/' ∷ name)
      → has_byte b'/' name ≡ false
      → (tasks : List SyncTask) × (replicate_upload v s group uuid (relayed h) t ≡ done tasks)
        × CopiesTo g s (λ server. sync_info s server group uuid dir name h.file_hash) tasks
  unfolding get_group
  replicate_upload_lem dir name at res path clean =
      let info = λ (server : StorageServer). sync_info s server group uuid dir name h.file_hash in
      let (no_nil, listed) =
        get_storages_complete v g (Each-lookup IsEntry group t.groups g sound.entries at).2 in
      let (tasks, run, r) = sync_tasks_lem info s (get_storages v g) no_nil in
      (
        tasks,
        replicate_run dir name tasks at res path clean run,
        record {
          sound = λ server i m. let (a, b, c) = r.sound server i m in ((listed server).0 a, b, c);
          complete = λ server e n. r.complete server ((listed server).1 e) n;
        },
      )

  -- Where the header names a path without a slash, the handler panics after the upload.
  replicate_upload_panic :
      h.upload_res ≡ success_text
      → has_byte b'/' h.file_path ≡ false
      → replicate_upload v s group uuid (relayed h) t ≡ panic
  unfolding replicate_upload
  replicate_upload_panic res clean = ground (
    arith,
    text_eq_iff h.upload_res success_text,
    (parse_header_file_path-panic h.file_path).1 clean,
  )
