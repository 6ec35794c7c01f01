-- ===== src/Db/Laws.antt =====
-- `EggDB` over a lawful database is a finite map without the empty key.
use eggdfs.Base.{
  ◌≡◌, ◌≢◌, ◌∙◌, refl, sym, ap, Bool, true, false, ◌||◌, inl, inr, List, [], ◌∷◌, Result, ok, err,
  Result-cases, if◌then◌else◌, arith, Bool-cases,
}
use eggdfs.Base.Text.{Text, text_eq, text_eq_iff}
use eggdfs.Db.{LevelDb, IsLawful, get, put, is_exist_key, delete, key_empty}

-- Whether a key is in a list.
unfoldable pub listed : Text → List Text → Bool
listed j [] = false
listed j (k ∷ ks) = text_eq k j || listed j ks

err-ne-ok : {E A : Type 0} (e : E) (a : A) → ◌≡◌ {A = Result E A} (err e) (ok a) → ⊥
err-ne-ok e a q = cc

if_or {ℓ} :
    {A : Type ℓ} (b c : Bool) (x y : A)
    → (if c then x else if b then x else y) ≡ (if b || c then x else y)
if_or true true x y = refl
if_or true false x y = refl
if_or false true x y = refl
if_or false false x y = refl

module _ (D : LevelDb) (law : IsLawful D) where
  -- A `Put` that succeeds over a lawful database had a key that is not empty. From then on `Get`
  -- returns the value under it and the key exists; every other key is as before.
  pub put_lem :
      (d d' : D.State) (k v : Text)
      → put D d k v ≡ ok d'
      → (k ≢ [])
        × ((j : Text) → get D d' j ≡ (if text_eq k j then ok v else get D d j))
        × ((j : Text) → is_exist_key D d' j ≡ (if text_eq k j then ok true else is_exist_key D d j))
  unfolding put get is_exist_key
  put_lem d d' k v e = elim (Bool-cases (text_eq k [])) [
    | inl empty ↦ absurd (err-ne-ok key_empty d' (rw empty at e))
    | inr full ↦
        let run : D.put d k v ≡ ok d' = rw full at e in
        (
          (λ q. ground (arith, text_eq_iff k [])),
          (λ j. ground (
            arith,
            law.get-put d d' k v j run,
            text_eq_iff k j,
            text_eq_iff j [],
            text_eq_iff k [],
          )),
          λ j. law.has-put d d' k v j run,
        )
  ]

  -- After a `Delete` that succeeds over a lawful database the listed keys do not exist, and every
  -- other key exists if it did before.
  pub delete_lem :
      (ks : List Text) (d d' : D.State) (j : Text)
      → delete D d ks ≡ (d', ok tt)
      → is_exist_key D d' j ≡ (if listed j ks then ok false else is_exist_key D d j)
  unfolding delete is_exist_key listed
  delete_lem [] d d' j e = ap (λ z. D.has z j) (sym (ap (λ z. z.0) e))
  delete_lem (k ∷ ks) d d' j e = elim (Result-cases (D.delete d k)) [
    | inr (m, q) ↦ absurd (err-ne-ok m tt (ap (λ z. z.1) (rw (delete, q) at e)))
    | inl (d₁, q) ↦
        let rest = delete_lem ks d₁ d' j (rw (delete, q) at e) in
        rest
        ∙ ap (λ z. if listed j ks then ok false else z) (law.has-delete d d₁ k j q)
        ∙ if_or (text_eq k j) (listed j ks) (ok false) (D.has d j)
  ]
