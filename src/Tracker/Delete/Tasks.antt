-- ===== src/Tracker/Delete/Tasks.antt =====
-- The goroutines of a deletion.
use mathlib.Core.List.{Mem}
use eggdfs.Base.{
  ◌≡◌, ◌↔◌, Bool, false, if◌then◌else◌, [], ◌∷◌, none, some, List, done, panic, Result, ℕ,
}
use eggdfs.Base.Text.{Text, has_byte}
use eggdfs.Base.Visit.{Visit}
use eggdfs.Common.Const.{success, param_bind_fail}
use eggdfs.Common.Json.{Json}
use eggdfs.Db.{LevelDb}
use eggdfs.Group.{StorageServer, Group, get_storages, get_storage}
use eggdfs.Group.Storages.{get_storages_complete}
use eggdfs.Tracker.{Tracker, IsSound, get_group}
use eggdfs.Tracker.Sync.{DeleteFile, delete_task}
use eggdfs.Tracker.Sync.Log.{delete_task_panic}
use eggdfs.Tracker.Query.Laws.{group-IsWell}
use eggdfs.Tracker.Delete.{Started, delete}

module _ (D : LevelDb) (J : Json) (v : Visit StorageServer) (bound : Bool) (file : DeleteFile)
    (t : Tracker D.State) where
  pub delete_run :
      (g : Group)
      → get_group file.group t ≡ some g
      → delete v bound file t
        ≡ done ((if bound then success ∷ [] else param_bind_fail ∷ success ∷ []), get_storages v g)
  unfolding delete
  delete_run g at = rw (at, delete)

  -- A deletion in a registered group of a sound tracker starts one goroutine for each registered storage and no
  -- other. If the path has no slash, each of them panics, whatever its server answers and the
  -- state of the tracker is by then: a group with one storage is enough to bring the process down.
  pub delete_crash :
      IsSound t
      → (g : Group) → get_group file.group t ≡ some g
      → has_byte b'/' file.file ≡ false
      → (sent : List ℕ) × (started : Started) × (delete v bound file t ≡ done (sent, started))
        × (¬ Mem none started)
        × ((s : StorageServer) → Mem (some s) started ↔ (get_storage s.addr g ≡ some s))
        × ((s : StorageServer) (answer : Result Text Text) (u : Tracker D.State)
            → delete_task D J s g.name file answer u ≡ panic)
  delete_crash sound g at clean =
      let (no_nil, listed) = get_storages_complete v g (group-IsWell t sound file.group g at) in
      (
        _,
        get_storages v g,
        delete_run g at,
        no_nil,
        listed,
        λ s answer u. delete_task_panic D J s g.name file u answer clean,
      )

  -- The handler itself panics on a group that is not registered, also after a failed binding.
  pub delete_unknown_group : get_group file.group t ≡ none → delete v bound file t ≡ panic
  unfolding delete
  delete_unknown_group e = rw (e, delete)
