-- ===== src/Db.antt =====
-- common/model/eggdb.go over goleveldb, which is not part of the repository: the store is a
-- parameter. Any of its calls may fail.
pub mod Memory
pub mod Laws
use eggdfs.Base.{
  ◌≡◌, ◌↔◌, Bool, true, false, Option, none, some, List, [], ◌∷◌, ◌++◌, Outcome, done, panic,
  Result, ok, err, if◌then◌else◌,
}
use eggdfs.Base.Text.{Text, text_eq, bytes}

-- `leveldb.DB`: keys and values are byte strings, and `entries` is what an iterator over the
-- whole range yields.
pub record LevelDb : Type 1 where
  pub State : Type 0
  pub get : State → Text → Result Text Text
  pub has : State → Text → Result Text Bool
  pub put : State → Text → Text → Result Text State
  pub delete : State → Text → Result Text State
  pub entries : State → List (Text × Text)

-- What leveldb documents of the calls that succeed: a key holds what was last put under it, and
-- nothing after a deletion.
pub record IsLawful (D : LevelDb) : Type 0 where
  pub get-put :
      (d d' : D.State) (k v j : Text)
      → D.put d k v ≡ ok d'
      → D.get d' j ≡ (if text_eq k j then ok v else D.get d j)
  pub has-put :
      (d d' : D.State) (k v j : Text)
      → D.put d k v ≡ ok d'
      → D.has d' j ≡ (if text_eq k j then ok true else D.has d j)
  pub has-delete :
      (d d' : D.State) (k j : Text)
      → D.delete d k ≡ ok d'
      → D.has d' j ≡ (if text_eq k j then ok false else D.has d j)

unfoldable pub key_empty : Text
key_empty = bytes "key can not be empty"

unfoldable pub default_db_dir : Text
default_db_dir = bytes "./data"

-- `NewEggDB` over `leveldb.OpenFile`: the log panics where the file does not open.
unfoldable pub new_egg_db : {S : Type 0} → (Text → Option S) → Text → Outcome S
unfolding default_db_dir
new_egg_db open_file name = elim (open_file (default_db_dir ++ (b'/' ∷ name))) [
  | none ↦ panic
  | some db ↦ done db
]

module _ (D : LevelDb) where
  open D use {State}

  unfoldable pub get : State → Text → Result Text Text
  get d k = if text_eq k [] then err key_empty else D.get d k

  unfoldable pub put : State → Text → Text → Result Text State
  put d k v = if text_eq k [] then err key_empty else D.put d k v

  unfoldable pub is_exist_key : State → Text → Result Text Bool
  is_exist_key d k = D.has d k

  -- The keys are deleted in turn up to the first failure; what was deleted before it stays so.
  unfoldable pub delete : State → List Text → State × Result Text (Unit {0})
  delete d [] = (d, ok tt)
  delete d (k ∷ ks) = elim (D.delete d k) [ err e ↦ (d, err e) | ok d' ↦ delete d' ks ]

  -- `_ = db.Put(…)`: the caller drops the error.
  unfoldable pub put_quietly : State → Text → Text → State
  unfolding put
  put_quietly d k v = elim (put d k v) [ ok d' ↦ d' | err e ↦ d ]
