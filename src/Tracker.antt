-- ===== src/Tracker.antt =====
-- svc/tracker.go: the state of a tracker and its map of groups. `mu` guards the map and every
-- function that takes it releases it on every path, so it is not part of the state; `lock` is
-- not always released (`storage_status_report`), and is.
pub mod Report
pub mod Select
pub mod Proxy
pub mod Sync
pub mod Upload
pub mod Delete
pub mod Repair
pub mod Query
pub mod Construct
pub mod ErrorLog
pub mod Reach
use eggdfs.Base.{
  ◌≡◌, ◌≢◌, sym, subst, ◌∙◌, ℕ, Bool, true, false, Option, none, some, List, [], Result, ok, err,
  if◌then◌else◌,
}
use eggdfs.Base.Text.{Text, bytes, text_eq}
use eggdfs.Base.Dict.{Dict, lookup, insert, values, NodupKeys, Each}
use eggdfs.Base.Visit.{Visit}
use eggdfs.Group.{Group, IsWell}

-- `S` is the state of the database `syncDB`.
pub record Tracker (S : Type 0) : Type 0 where
  pub groups : Dict Group
  pub sync_db : S
  pub locked : Bool

unfoldable pub group_name_nil : Text
group_name_nil = bytes "group name can not be nil"

abbrev pub IsEntry : Text → Group → Type 0
IsEntry n g = (g.name ≡ n) × (n ≢ []) × IsWell g

module _ {S : Type 0} where
  unfoldable pub get_groups : Visit Group → Tracker S → List Group
  get_groups v t = v.visit (values t.groups)

  unfoldable pub get_group : Text → Tracker S → Option Group
  get_group name t = lookup name t.groups

  unfoldable pub is_exist_group : Text → Tracker S → Bool
  is_exist_group name t = elim (lookup name t.groups) [ none ↦ false | some _ ↦ true ]

  unfoldable pub register_group : Group → Tracker S → Result Text (Tracker S)
  register_group g t =
      if text_eq g.name [] then err group_name_nil else elim (lookup g.name t.groups) [
        | none ↦ ok (record t { groups = insert g.name g t.groups })
        | some _ ↦ ok t
      ]

  -- A write through a `*Group` that `groups` holds.
  abbrev pub put_group : Group → Tracker S → Tracker S
  put_group g t = record t { groups = insert g.name g t.groups }

  -- Every group stands under its own name and is well-formed, and the tracker's lock is free.
  pub record IsSound (t : Tracker S) : Type 0 where
    pub distinct : NodupKeys t.groups
    pub entries : Each IsEntry t.groups
    pub unlocked : t.locked ≡ false

  -- The groups and the lock are as before.
  abbrev pub SameGroups : Tracker S → Tracker S → Type 0
  SameGroups t u = (u.groups ≡ t.groups) × (u.locked ≡ t.locked)

  pub IsSound_of_SameGroups : (t u : Tracker S) → IsSound t → SameGroups t u → IsSound u
  IsSound_of_SameGroups t u sound same = record {
    distinct = subst NodupKeys (sym same.0) sound.distinct;
    entries = subst (Each IsEntry) (sym same.0) sound.entries;
    unlocked = same.1 ∙ sound.unlocked;
  }
