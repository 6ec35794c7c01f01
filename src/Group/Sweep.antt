-- ===== src/Group/Sweep.antt =====
-- The body of the loop of `Tracker.SetTrackerStatus` (svc/tracker.go), for one group: servers that
-- stopped reporting go offline, then the group's own status and capacity are set.
pub mod Laws
pub mod Status
use mathlib.Core.Bool.{Bool, false, ◌&&◌, not}
use eggdfs.Base.{
  ℕ, ◌-◌, ◌*◌, none, some, List, [], ◌∷◌, ◌++◌, Outcome, done, panic, ◌>>=◌, ltb, ◌==◌,
  if◌then◌else◌,
}
use eggdfs.Base.Text.{Text}
use eggdfs.Base.Dict.{Dict, lookup, insert}
use eggdfs.Base.Visit.{Visit}
use eggdfs.Common.Const.{storage_active, storage_offline, group_active, group_unavailable}
use eggdfs.Group.{StorageServer, Group, storage_keys, get_group_cap}

-- More than 50 seconds without a report.
abbrev pub is_stale : ℕ → StorageServer → Bool
is_stale now s = ltb (5 * 10) (now - s.update_time)

-- One round of the inner loop: the write through the pointer `s`, and the append to `vs`.
unfoldable pub visit_one :
    ℕ
    → Text
    → StorageServer
    → Dict StorageServer
    → List StorageServer
    → Dict StorageServer × List StorageServer
visit_one now k s m vs =
    if s.status == storage_active
    then (if is_stale now s
        then (insert k (record s { status = storage_offline }) m, vs)
        else (m, vs ++ (s ∷ [])))
    else (m, vs)

unfoldable pub sweep :
    ℕ
    → List Text
    → Dict StorageServer
    → List StorageServer
    → Outcome (Dict StorageServer × List StorageServer)
unfolding visit_one
sweep now [] m vs = done (m, vs)
sweep now (k ∷ ks) m vs = elim (lookup k m) [
  | none ↦ panic
  | some s ↦ let (m', vs') = visit_one now k s m vs in sweep now ks m' vs'
]

-- The two branches on `len(vs)`.
unfoldable pub set_group_status : Visit StorageServer → Group → List StorageServer → Outcome Group
set_group_status v g [] = done (record g { status = group_unavailable; cap = 0 })
set_group_status v g (s ∷ vs) = do
  (c, h) ← get_group_cap v g
  done (record h { status = group_active; cap = c })

unfoldable pub refresh_group : Visit StorageServer → ℕ → Group → Outcome Group
unfolding sweep set_group_status
refresh_group v now g = do
  (m, vs) ← sweep now (storage_keys v g) g.storages []
  set_group_status v (record g { storages = m }) vs
