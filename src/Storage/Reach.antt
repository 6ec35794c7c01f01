-- ===== src/Storage/Reach.antt =====
-- A storage under any sequence of requests and removals. A step is one handler or one goroutine that
-- removes a damaged file; the other goroutines only send messages.
pub mod Lasting
pub mod Others
pub mod Damaged
use mathlib.Core.Option
use mathlib.Core.Option.{some-injective, none-ne-some, some-ne-none}
use eggdfs.Base.{
  ℕ, ◌≡◌, ◌≢◌, refl, sym, ap, ◌∙◌, subst, inl, inr, true, false, Option, none, some, List, [], ◌∷◌,
  done, Bool-cases, Option-cases, if◌then◌else◌, arith,
}
use eggdfs.Base.Dict.{lookup, insert, NodupKeys, insert-NodupKeys, remove-NodupKeys}
use eggdfs.Base.Text.{Text, text_eq, text_eq_iff}
use eggdfs.Common.Json.{Json}
use eggdfs.Common.Mime.{default_file_download_content_type}
use eggdfs.Common.Model.{SyncFileInfo}
use eggdfs.Conf.{GlobalConfig}
use eggdfs.Db.{LevelDb}
use eggdfs.Disk.{Disk, Entry, file, Faults, stat, remove_path}
use eggdfs.Disk.Laws.{Grows-keeps}
use eggdfs.Disk.Distinct.{mkdir_all-NodupKeys}
use eggdfs.Disk.Files.{insert-SameBut, remove_path_ok, remove_path_lem}
use eggdfs.Storage.{Storage, slash}
use eggdfs.Storage.Download.{sent, attachment, download}
use eggdfs.Storage.Download.Laws.{download_found, slash-ne-nil, slash_assoc}
use eggdfs.Storage.Effects.{Closed, upload_path, sync_path}
use eggdfs.Storage.Effects.Uploads.{quick_upload_keeps}
use eggdfs.Storage.Effects.Syncs.{sync_keeps}
use eggdfs.Storage.Sync.{Response, Synced, sync}
use eggdfs.Storage.Upload.{FormFile, UploadRequest, Uploaded, ensure_dir, quick_upload}
use eggdfs.Storage.Upload.Outcomes.{Stored, ensure_dir-Grows}
use eggdfs.Util.{Date, gen_file_path, path_base, gen_file_name}

-- `go os.Remove(dst)`, whose error nobody reads.
unfoldable pub remove_damaged : {S : Type 0} → Faults → Text → Storage S → Storage S
unfolding remove_path
remove_damaged f p s = elim (remove_path f p s.disk) [ none ↦ s | some d ↦ record s { disk = d } ]

pub ensure_dir-NodupKeys :
    (f : Faults) (base : Text) (d : Disk) → NodupKeys d → NodupKeys (ensure_dir f base d).0
unfolding ensure_dir
ensure_dir-NodupKeys f base d u = elim (Bool-cases (stat f base d)) [
  | inl there ↦ rw there u
  | inr missing ↦ rw missing (mkdir_all-NodupKeys f base d u)
]

made_keeps :
    (f : Faults) (base : Text) (d : Disk) (q : Text) (e : Entry)
    → NodupKeys d
    → lookup q d ≡ some e
    → NodupKeys (ensure_dir f base d).0 × (lookup q (ensure_dir f base d).0 ≡ some e)
made_keeps f base d q e u at = (
  ensure_dir-NodupKeys f base d u,
  Grows-keeps d (ensure_dir f base d).0 (ensure_dir-Grows f base d) q e at,
)

pub NodupKeys-Closed : (p : Text) → Closed p (NodupKeys {V = Entry})
NodupKeys-Closed p = record {
  made = ensure_dir-NodupKeys;
  written = λ x d. insert-NodupKeys p (file x) d;
  removed = λ f d d' gone u.
      subst NodupKeys (sym (remove_path_ok f p d d' gone)) (remove-NodupKeys p d u);
}

Keeps-Closed :
    (p q : Text) (e : Entry) → p ≢ q → Closed p (λ d. NodupKeys d × (lookup q d ≡ some e))
Keeps-Closed p q e differ =
    let apart : text_eq p q ≡ false = ground (arith, text_eq_iff p q) in
    record {
      made = λ f base d (u, at). made_keeps f base d q e u at;
      written = λ x d (u, at).
          (insert-NodupKeys p (file x) d u, insert-SameBut p (file x) d q apart ∙ at);
      removed = λ f d d' gone (u, at). (
        subst NodupKeys (sym (remove_path_ok f p d d' gone)) (remove-NodupKeys p d u),
        (remove_path_lem f p d d' u gone).1 q apart ∙ at,
      );
    }

module _ (D : LevelDb) (J : Json) (md5 : Text → Text) (c : GlobalConfig) where
  -- The step from `s` to `s'` with the path of the file that it names, if it names one. Each carries
  -- what the environment chose: the request, the refusals of the system, the answer of the source.
  pub data Step (s : Storage D.State) (named : Option Text) (s' : Storage D.State) : Type 0 where
    upload :
        (f : Faults) (p : Text) (today : Date) (rq : UploadRequest)
        → named ≡ Option.map (upload_path c today rq) rq.form_file
        → (quick_upload D J md5 c f p today rq s).1 ≡ s'
        → Step s named s'
    synchronise :
        (f : Faults) (info : SyncFileInfo) (got : Option Response) (r : Synced)
        → named ≡ some (sync_path c info)
        → sync D J c f info got s ≡ done (r, s')
        → Step s named s'
    removal : (f : Faults) (p : Text) → named ≡ some p → remove_damaged f p s ≡ s' → Step s named s'

  -- The steps with the paths that they name, the last step first.
  pub data Run (s : Storage D.State) : List (Option Text) → Storage D.State → Type 0 where
    here : Run s [] s
    next :
        {ps : List (Option Text)} {named : Option Text} {u w : Storage D.State}
        → Run s ps u
        → Step u named w
        → Run s (named ∷ ps) w

  -- No step names the path.
  abbrev pub Avoids : Text → List (Option Text) → Type 0
  Avoids q [] = Unit
  Avoids q (named ∷ ps) = (named ≢ some q) × Avoids q ps

  Step-along :
      (P : Disk → Type 0) (s s' : Storage D.State) (named : Option Text)
      → ((f : Faults) (base : Text) (d : Disk) → P d → P (ensure_dir f base d).0)
      → ((p : Text) → named ≡ some p → Closed p P)
      → Step s named s'
      → P s.disk
      → P s'.disk
  unfolding remove_damaged
  Step-along P s s' named made closed (upload f p today rq e run) h =
      subst (λ (z : Storage D.State). P z.disk) run
        (quick_upload_keeps D J c f P md5 p today rq s
          (λ form sent. closed _ (e ∙ ap (Option.map (upload_path c today rq)) sent)) (made f) h)
  Step-along P s s' named made closed (synchronise f info got r e run) h =
      sync_keeps D J c f P info (closed _ e) got s h r s' run
  Step-along P s s' named made closed (removal f p e run) h =
      subst (λ (z : Storage D.State). P z.disk) run
        (elim (Option-cases (remove_path f p s.disk)) [
          | inl kept ↦ rw (remove_damaged, kept) h
          | inr (d, gone) ↦ rw (remove_damaged, gone) ((closed p e).removed f s.disk d gone h)
        ])

  -- A file that stands under a path that no step names, on a disk that lists no path twice, stays, and
  -- the disk never lists a path twice.
  Step-keeps :
      (s s' : Storage D.State) (named : Option Text) (q : Text) (e : Entry)
      → Step s named s'
      → named ≢ some q
      → NodupKeys s.disk × (lookup q s.disk ≡ some e)
      → NodupKeys s'.disk × (lookup q s'.disk ≡ some e)
  Step-keeps s s' named q e step other =
      Step-along (λ d. NodupKeys d × (lookup q d ≡ some e)) s s' named
        (λ f base d (u, at). made_keeps f base d q e u at)
        (λ p n. Keeps-Closed p q e (λ same. other (n ∙ ap some same))) step

  pub Run-keeps :
      (s w : Storage D.State) (ps : List (Option Text)) (q : Text) (e : Entry)
      → Run s ps w
      → Avoids q ps
      → NodupKeys s.disk × (lookup q s.disk ≡ some e)
      → NodupKeys w.disk × (lookup q w.disk ≡ some e)
  Run-keeps s w ps q e here free h = h
  Run-keeps s w ps q e (next {named = named} {u = u} before step) (other, free) h =
      Step-keeps u w named q e step other (Run-keeps s u _ q e before free h)

  -- The disk of a storage lists each path once after any steps, if it did before them.
  pub Run-NodupKeys :
      (s w : Storage D.State) (ps : List (Option Text))
      → Run s ps w
      → NodupKeys s.disk
      → NodupKeys w.disk
  Run-NodupKeys s w ps here u = u
  Run-NodupKeys s w ps (next {named = named} {u = v} before step) u =
      Step-along NodupKeys v w named ensure_dir-NodupKeys (λ p n. NodupKeys-Closed p) step
        (Run-NodupKeys s v _ before u)
