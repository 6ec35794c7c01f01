-- ===== src/Db/Memory.antt =====
-- A store in memory that never fails meets the assumptions on leveldb.
use eggdfs.Base.{
  subst, ◌≡◌, [], ◌∷◌, Bool, true, false, Option, none, some, Result, ok, err, arith, if◌then◌else◌,
}
use eggdfs.Base.Text.{Text, text_eq, text_eq_iff, bytes}
use eggdfs.Base.Dict
use eggdfs.Base.Dict.{Dict, lookup-insert}
use eggdfs.Db.{LevelDb, IsLawful}

abbrev found : Option Text → Result Text Text
found none = err (bytes "leveldb: not found")
found (some v) = ok v

abbrev is_some : Option Text → Bool
is_some none = false
is_some (some v) = true

without : Text → Dict Text → Dict Text
without k [] = []
without k ((j, v) ∷ m) = let rest = without k m in if text_eq j k then rest else (j, v) ∷ rest

lookup-without :
    (k j : Text) (m : Dict Text)
    → Dict.lookup j (without k m) ≡ (if text_eq k j then none else Dict.lookup j m)
unfolding without Dict.lookup
lookup-without k j [] = ground arith
lookup-without k j ((i, w) ∷ m) =
    ground (arith, text_eq_iff k j, text_eq_iff i k, text_eq_iff i j, lookup-without k j m)

unfoldable pub memory : LevelDb
unfolding without Dict.lookup Dict.insert
memory = record {
  State = Dict Text;
  get = λ d k. found (Dict.lookup k d);
  has = λ d k. ok (is_some (Dict.lookup k d));
  put = λ d k v. ok (Dict.insert k v d);
  delete = λ d k. ok (without k d);
  entries = λ d. d;
}

ok-injective {ℓ κ} :
    {E : Type ℓ} {A : Type κ} (a b : A) → ◌≡◌ {A = Result E A} (ok a) (ok b) → a ≡ b
ok-injective a b e = cc

pub memory-IsLawful : IsLawful memory
unfolding memory
memory-IsLawful = record {
  get-put = λ d d' k v j e.
      subst (λ z. found (Dict.lookup j z) ≡ (if text_eq k j then ok v else found (Dict.lookup j d)))
        (ok-injective _ _ e) (ground (arith, lookup-insert k j v d));
  has-put = λ d d' k v j e.
      subst
        (λ z.
          ◌≡◌ {A = Result Text Bool} (ok (is_some (Dict.lookup j z)))
            (if text_eq k j then ok true else ok (is_some (Dict.lookup j d))))
        (ok-injective _ _ e) (ground (arith, lookup-insert k j v d));
  has-delete = λ d d' k j e.
      subst
        (λ z.
          ◌≡◌ {A = Result Text Bool} (ok (is_some (Dict.lookup j z)))
            (if text_eq k j then ok false else ok (is_some (Dict.lookup j d))))
        (ok-injective _ _ e) (ground (arith, lookup-without k j d));
}

unfoldable pub no_entries : memory.State
unfolding memory
no_entries = []
