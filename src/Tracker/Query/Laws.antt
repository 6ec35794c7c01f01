-- ===== src/Tracker/Query/Laws.antt =====
-- When a download comes back.
use eggdfs.Base.{
  Result-cases, ℕ, ◌≡◌, ◌⊎◌, panic, refl, ap, ◌∙◌, Option, some, inl, inr, done, Outcome, [], ◌==◌,
  Bool-cases, Option-cases,
}
use eggdfs.Base.Text.{Text, text_eq}
use eggdfs.Base.Dict.{Each-lookup}
use eggdfs.Base.Visit.{Visit}
use eggdfs.Common.Const.{group_active, fail, param_bind_fail}
use eggdfs.Group.{StorageServer, Group, IsSlot, IsWell, get_storage}
use eggdfs.Tracker.{Tracker, IsSound, IsEntry, get_group}
use eggdfs.Tracker.Proxy.{Proxied, aborted, new_tracker_proxy}
use eggdfs.Tracker.Proxy.Offline.{http_proxy_lem}
use eggdfs.Tracker.Select.ByAddress.{select_storage_ip_hash_lem}
use eggdfs.Tracker.Query.{
  Fetched, refused, through, answer, fetch_from, fetch, download, no_group, no_group_or_storage,
}

pub group-IsWell :
    {S : Type 0} (t : Tracker S)
    → IsSound t
    → (n : Text) (g : Group) → get_group n t ≡ some g
    → IsWell g
unfolding get_group
group-IsWell t sound n g at = (Each-lookup IsEntry n t.groups g sound.entries at).2

-- The group that a server names is the one that it is registered in.
pub server_group :
    {S : Type 0} (t : Tracker S)
    → IsSound t
    → (n : Text) (g : Group) (s : StorageServer) → get_group n t ≡ some g
    → get_storage s.addr g ≡ some s
    → IsWell g × (s.group ≡ n) × (g.name ≡ n)
unfolding get_group get_storage
server_group t sound n g s at reg =
    let (named, full, well) = Each-lookup IsEntry n t.groups g sound.entries at in
    (well, (Each-lookup (IsSlot g.name) s.addr g.storages s well.slots reg).2 ∙ named, named)

module _ {S : Type 0} (parse : Text → Option Text) (p : Proxied) (t : Tracker S)
    (sound : IsSound t) where
  -- An answer was sent, and the tracker is still sound, or the storage's answer broke off.
  abbrev pub Answers : Outcome (Fetched × Tracker S) → Type 0
  Answers o =
      ((f : Fetched) × (u : Tracker S) × (o ≡ done (f, u)) × IsSound u × (u.sync_db ≡ t.sync_db))
      ⊎ ((o ≡ panic) × (p ≡ aborted))

  fetch_from-Answers :
      (n : Text) (g : Group) (s : StorageServer)
      → get_group n t ≡ some g
      → get_storage s.addr g ≡ some s
      → Answers (fetch_from parse s p t)
  unfolding fetch_from new_tracker_proxy
  fetch_from-Answers n g s at reg =
      let (well, here, named) = server_group t sound n g s at reg in
      let tp = new_tracker_proxy s.http_schema s.addr s.group in
      elim (http_proxy_lem tp t sound g s (ap (λ m. get_group m t) here ∙ at) reg parse p) [
        | inr (run, broken) ↦ inr (rw run, broken)
        | inl (r, u, run, sound', db, same) ↦ elim (Result-cases r) [
          | inl (back, e) ↦ inl (through back, u, rw (run, e), sound', db)
          | inr (m, e) ↦ inl (refused (answer fail m tt), u, rw (run, e), sound', db)
        ]
      ]

  fetch-Answers :
      (v : Visit StorageServer) (hash : Text → ℕ) (ip n : Text) (g : Group)
      → get_group n t ≡ some g
      → Answers (fetch v hash parse ip g p t)
  unfolding fetch
  fetch-Answers v hash ip n g at =
      elim (select_storage_ip_hash_lem v v hash ip g (group-IsWell t sound n g at)).0 [
        | inl (s, run, reg, up) ↦ rw run (fetch_from-Answers n g s at reg)
        | inr (run, none_up) ↦
            inl (refused (answer fail no_group_or_storage tt), t, rw run, sound, refl)
      ]

  -- On a sound tracker a download returns an answer, for every group, client and storage, and
  -- leaves the tracker sound and its log as it was, but for one case: where the storage's answer
  -- breaks off on the way to the client, the reverse proxy panics.
  pub download_lem :
      (v : Visit StorageServer) (hash : Text → ℕ) (name ip : Text)
      → Answers (download v hash parse name ip p t)
  unfolding download
  download_lem v hash name ip = elim (Bool-cases (text_eq name [])) [
    | inl empty ↦ inl (refused (answer param_bind_fail [] tt), t, rw empty, sound, refl)
    | inr given ↦ elim (Option-cases (get_group name t)) [
      | inl e ↦ inl (refused (answer fail no_group tt), t, rw (given, e), sound, refl)
      | inr (g, e) ↦ elim (Bool-cases (g.status == group_active)) [
        | inl up ↦ rw (given, e, up) (fetch-Answers v hash ip name g e)
        | inr down ↦ inl (refused (answer fail no_group tt), t, rw (given, e, down), sound, refl)
      ]
    ]
  ]
