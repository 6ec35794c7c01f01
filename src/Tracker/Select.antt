-- ===== src/Tracker/Select.antt =====
-- `SelectStorageIPHash` and `SelectGroupForUpload` of svc/tracker.go.
pub mod ByAddress
pub mod ForUpload
pub mod Rota
use eggdfs.Base.{
  ℕ, ◌%◌, Bool, Option, none, some, List, [], ◌∷◌, Outcome, done, panic, blocked, ◌>>=◌, Result, ok,
  err, ltb, ◌==◌, if◌then◌else◌, length, get_elem?,
}
use eggdfs.Base.Text.{Text, bytes}
use eggdfs.Base.Sort.{sort_slice}
use eggdfs.Base.Visit.{Visit}
use eggdfs.Common.Const.{storage_active, group_active}
use eggdfs.Group.{StorageServer, Group, get_storages}
use eggdfs.Tracker.{Tracker, get_groups}

unfoldable pub no_available_storage : Text
no_available_storage = bytes "no available storage for group"

unfoldable pub no_available_group : Text
no_available_group = bytes "no available group"

-- The loop over `GetStorages()`; a nil pointer panics at `g.Status`.
unfoldable pub active_storages : List (Option StorageServer) → Outcome (List StorageServer)
active_storages [] = done []
active_storages (none ∷ l) = panic
active_storages (some s ∷ l) = do
  rest ← active_storages l
  done (if s.status == storage_active then s ∷ rest else rest)

-- `as[i]`
unfoldable pub at_index : List StorageServer → ℕ → Outcome StorageServer
at_index l i = elim (get_elem? l i) [ none ↦ panic | some s ↦ done s ]

unfoldable pub pick : ℕ → List StorageServer → Outcome (Result Text StorageServer)
unfolding at_index
pick hashcode [] = done (err no_available_storage)
pick hashcode (s ∷ l) = do chosen ← at_index (s ∷ l) (hashcode % length (s ∷ l)); done (ok chosen)

-- `hash` is the tracker's hash function, CRC-32 by default. An `int` has 64 bits, so the hash of 32
-- bits is not negative.
unfoldable pub select_storage_ip_hash :
    Visit StorageServer → (Text → ℕ) → Text → Group → Outcome (Result Text StorageServer)
unfolding active_storages pick
select_storage_ip_hash v hash ip g = do as' ← active_storages (get_storages v g); pick (hash ip) as'

unfoldable pub active_groups : List Group → List Group
active_groups [] = []
active_groups (g ∷ l) =
    let rest = active_groups l in if g.status == group_active then g ∷ rest else rest

-- The comparison reads index `i` on both sides.
unfoldable pub cap_less : Group → Group → Bool
cap_less gi gj = ltb gi.cap gi.cap

unfoldable pub first_group : List Group → Result Text Group
first_group [] = err no_available_group
first_group (g ∷ l) = ok g

unfoldable pub select_group_for_upload : {S : Type 0} → Visit Group → Tracker S → Result Text Group
unfolding active_groups cap_less first_group sort_slice
select_group_for_upload v t = first_group (sort_slice cap_less (active_groups (get_groups v t)))
