-- ===== src/Group.antt =====
-- svc/group.go: a group and its registered storages. A `*StorageServer` is the map slot that holds
-- it: a report allocates each server and stores it in one slot of one group. The lock `mu` is
-- written at the end of a call by the read locks that the call did not release; a writer waits
-- for all of them.
pub mod Storages
pub mod Capacity
pub mod Registry
pub mod Sweep
use eggdfs.Base.{
  ℕ, ◌+◌, ◌≡◌, ◌≢◌, Bool, true, false, Option, none, some, List, [], ◌∷◌, map, Outcome, done, panic,
  blocked, ◌>>=◌, Result, ok, err, ltb, ◌==◌, if◌then◌else◌,
}
use eggdfs.Base.Text.{Text, bytes, text_eq}
use eggdfs.Base.Dict.{Dict, lookup, insert, remove, values, NodupKeys, Each}
use eggdfs.Base.Sort.{sort_slice, sort_strings}
use eggdfs.Base.Visit.{Visit}

pub record StorageServer : Type 0 where
  pub group : Text
  pub http_schema : Text
  pub addr : Text
  pub status : ℕ
  pub free : ℕ
  pub update_time : ℕ

pub record Group : Type 0 where
  pub name : Text
  pub status : ℕ
  pub cap : ℕ
  pub storages : Dict StorageServer
  pub readers : ℕ

-- The servers of the sorted addresses; `none` is a nil pointer, for an address with no slot.
unfoldable pub storage_keys : Visit StorageServer → Group → List Text
storage_keys v g = sort_strings (map (λ s. s.addr) (v.visit (values g.storages)))

unfoldable pub get_storages : Visit StorageServer → Group → List (Option StorageServer)
unfolding storage_keys
get_storages v g = map (λ k. lookup k g.storages) (storage_keys v g)

unfoldable pub get_storage : Text → Group → Option StorageServer
get_storage addr g = lookup addr g.storages

-- `g.mu.Lock()` and what follows it.
abbrev pub locking {ℓ} : {A : Type ℓ} → Group → A → Outcome A
locking g a = if g.readers == 0 then done a else blocked

unfoldable pub addr_nil : Text
addr_nil = bytes "storage addr can not be nil"

unfoldable pub nil_storage : Text
nil_storage = bytes "nil storage"

unfoldable pub register_storage : StorageServer → Group → Outcome (Result Text Group)
register_storage s g =
    if text_eq s.addr []
    then done (err addr_nil)
    else locking g (elim (lookup s.addr g.storages) [
      | some _ ↦ ok g
      | none ↦ ok (record g { storages = insert s.addr s g.storages })
    ])

unfoldable pub remove_storage : StorageServer → Group → Outcome (Result Text Group)
remove_storage s g =
    if text_eq s.addr []
    then done (err addr_nil)
    else locking g (ok (record g { storages = remove s.addr g.storages }))

unfoldable pub update_storage : StorageServer → Group → Outcome (Result Text Group)
update_storage s g =
    if text_eq s.addr []
    then done (err addr_nil)
    else locking g (elim (lookup s.addr g.storages) [
      | none ↦ err nil_storage
      | some _ ↦ ok (record g { storages = insert s.addr s g.storages })
    ])

unfoldable pub is_exist_storage : StorageServer → Group → Outcome Bool
is_exist_storage s g = locking g (elim (lookup s.addr g.storages) [ none ↦ false | some _ ↦ true ])

unfoldable pub save_or_update_storage : StorageServer → Group → Outcome (Result Text Group)
save_or_update_storage s g =
    if text_eq s.addr []
    then done (err addr_nil)
    else locking g (ok (record g { storages = insert s.addr s g.storages }))

-- `caps[0]` after the sort; an index out of range panics.
first_cap : List ℕ → Outcome ℕ
first_cap [] = panic
first_cap (c ∷ cs) = done c

-- The early return for an empty map keeps its read lock.
unfoldable pub cap_of : Dict StorageServer → Visit StorageServer → Group → Outcome (ℕ × Group)
unfolding first_cap sort_slice
cap_of [] v g = done (0, record g { readers = g.readers + 1 })
cap_of (e ∷ m) v g = do
  c ← first_cap (sort_slice ltb (map (λ s. s.free) (v.visit (values (e ∷ m)))))
  done (c, g)

unfoldable pub get_group_cap : Visit StorageServer → Group → Outcome (ℕ × Group)
unfolding cap_of
get_group_cap v g = cap_of g.storages v g

-- Every storage stands under its own address, and no lock is held.
abbrev pub IsSlot : Text → Text → StorageServer → Type 0
IsSlot name k s = (s.addr ≡ k) × (k ≢ []) × (s.group ≡ name)

pub record IsWell (g : Group) : Type 0 where
  pub distinct : NodupKeys g.storages
  pub slots : Each (IsSlot g.name) g.storages
  pub released : g.readers ≡ 0
