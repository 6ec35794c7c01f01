-- ===== src/Tracker/Report/Available.antt =====
-- After a report of a storage with enough space, an upload finds a group and a storage.
use mathlib.Core.Option.{none-ne-some}
use eggdfs.Base.{
  ℕ, ◌+◌, ◌≤◌, ◌<◌, ◌≡◌, refl, sym, ap, ◌∙◌, Bool, true, false, Option, none, some, inl, inr, done,
  ok, arith,
}
use eggdfs.Base.Dict.{Each-lookup}
use eggdfs.Base.Text.{Text, text_eq_refl, join_host_port}
use eggdfs.Base.Visit.{Visit}
use eggdfs.Common.Const.{min_storage_space, group_active, storage_active}
use eggdfs.Group.{StorageServer, Group, IsSlot, get_storage}
use eggdfs.Group.Sweep.Laws.{expire, is_live}
use eggdfs.Group.Sweep.Status.{SomeLive}
use eggdfs.Tracker.{Tracker, IsSound, get_group}
use eggdfs.Tracker.Query.Laws.{group-IsWell}
use eggdfs.Tracker.Report.{Params, reported, storage_status_report}
use eggdfs.Tracker.Report.Servers.{server_in, server_at}
use eggdfs.Tracker.Report.Effect.{IsAccepted, report_accepted}
use eggdfs.Tracker.Report.Laws.{Settled}
use eggdfs.Tracker.Select.{select_group_for_upload, select_storage_ip_hash}
use eggdfs.Tracker.Select.ByAddress.{select_storage_ip_hash_lem}
use eggdfs.Tracker.Select.ForUpload.{select_group_for_upload_lem}

true-ne-false : ◌≡◌ {A = Bool} true false → ⊥
true-ne-false e = cc

server_in-cases :
    (k : Text) (o : Option Group) (s : StorageServer)
    → server_in k o ≡ some s
    → (g : Group) × (o ≡ some g) × (get_storage k g ≡ some s)
server_in-cases k none s e = absurd (none-ne-some s e)
server_in-cases k (some g) s e = (g, refl, e)

module _ (now later : ℕ) (p : Params) (roomy : min_storage_space < p.free)
    (soon : later ≤ now + 50) where
  reported-is_live : is_live later (reported now p) ≡ true
  unfolding reported
  reported-is_live = ground arith

  expire-reported : expire later (reported now p) ≡ reported now p
  unfolding reported
  expire-reported = ground arith

-- A settled group with a live server is active.
Settled-active :
    (later : ℕ) (g : Group) (k : Text) (s : StorageServer)
    → Settled later g
    → get_storage k g ≡ some s
    → is_live later s ≡ true
    → g.status ≡ group_active
Settled-active later g k s (inl (live, up, least)) e l = up
Settled-active later g k s (inr (dead, down, zeroed)) e l =
    absurd (true-ne-false (sym l ∙ dead k s e))

Settled-SomeLive :
    (later : ℕ) (g : Group) → Settled later g → g.status ≡ group_active → SomeLive later g
Settled-SomeLive later g (inl (live, up, least)) e = live
Settled-SomeLive later g (inr (dead, down, zeroed)) e = absurd (omega arith)

live-active : (later : ℕ) (s : StorageServer) → is_live later s ≡ true → s.status ≡ storage_active
live-active later s l = ground arith

-- A storage of the group that is up.
abbrev pub Serves : Visit StorageServer → (Text → ℕ) → Text → Group → Type 0
Serves v hash ip g =
    (s : StorageServer) × (select_storage_ip_hash v hash ip g ≡ done (ok s))
    × (get_storage s.addr g ≡ some s)
    × (s.status ≡ storage_active)

module _ {S : Type 0} (later : ℕ) (w : Tracker S) (sound : IsSound w) where
  serves :
      ((n : Text) (g : Group) → get_group n w ≡ some g → Settled later g)
      → (g : Group) → get_group g.name w ≡ some g
      → g.status ≡ group_active
      → (v : Visit StorageServer) (hash : Text → ℕ) (ip : Text) → Serves v hash ip g
  unfolding get_storage
  serves settled g at up v hash ip =
      let well = group-IsWell w sound g.name g at in
      let (k, s, e, live) = Settled-SomeLive later g (settled g.name g at) up in
      let here : s.addr ≡ k = (Each-lookup (IsSlot g.name) k g.storages s well.slots e).0 in
      elim (select_storage_ip_hash_lem v v hash ip g well).0 [
        | inl found ↦ found
        | inr (failed, all_down) ↦
            absurd (all_down s (ap (λ j. get_storage j g) here ∙ e) (live-active later s live))
      ]

module _ {S : Type 0} (v : Visit StorageServer) (now later : ℕ) (p : Params) (t : Tracker S)
    (sound : IsSound t) where
  -- A report with a host, a port and a group, of more free space than the minimum, to a sound
  -- tracker that computes the status within 50 seconds: afterwards the server stands under its
  -- group and address as reported, and an upload from any client finds an active group, and in it
  -- an active storage.
  pub report_then_upload :
      IsAccepted p
      → min_storage_space < p.free
      → later ≤ now + 50
      → (w : Tracker S) × (storage_status_report v now later p t ≡ done w)
        × (server_at p.group (join_host_port p.host p.port) w ≡ some (reported now p))
        × ((vg : Visit Group) (vs : Visit StorageServer) (hash : Text → ℕ) (ip : Text)
            → (g : Group) × (select_group_for_upload vg w ≡ ok g)
              × (g.status ≡ group_active)
              × Serves vs hash ip g)
  unfolding get_group
  report_then_upload a roomy soon =
      let (w, run, sound', servers, settled, db) = report_accepted v now later p t sound a in
      let addr = join_host_port p.host p.port in
      let here : server_at p.group addr w ≡ some (reported now p) =
        servers p.group addr
        ∙ rw (text_eq_refl p.group, text_eq_refl addr)
            (ap some (expire-reported now later p roomy soon)) in
      let (g₀, at₀, reg₀) = server_in-cases addr (get_group p.group w) (reported now p) here in
      let up₀ =
        Settled-active later g₀ addr (reported now p) (settled p.group g₀ at₀) reg₀
          (reported-is_live now later p roomy soon) in
      (
        w,
        run,
        here,
        λ vg vs hash ip. elim (select_group_for_upload_lem vg w sound') [
          | inl (g, chosen, at, up) ↦
              (g, chosen, up, serves later w sound' settled g at up vs hash ip)
          | inr (failed, all_down) ↦ absurd (all_down p.group g₀ at₀ up₀)
        ],
      )
