-- ===== src/Base/Sort/Unique.antt =====
-- A strictly ascending list is determined by its members.
use mathlib.Core.List.{Mem, mem-cons, not-mem-nil, Pairwise, Pairwise-cons, Mem-prop}
use mathlib.Core.Logic.Or
use mathlib.Core.Bool.{false≢true}
use eggdfs.Base.{List, [], ◌∷◌, Bool, true, false, ◌≡◌, refl, sym, ◌∙◌, ap₂, ◌↔◌, subst}

module _ {ℓ} {A : Type ℓ} (less : A → A → Bool) where
  abbrev pub IsStrict : List A → Type ℓ
  IsStrict = Pairwise (λ a b. less a b ≡ true)

  module _ (asym : (a b : A) → less a b ≡ true → less b a ≡ false) (set : IsSet A) where
    irrefl : (a b : A) → a ≡ b → less a b ≡ true → ⊥
    irrefl a b e h =
        let h' : less b a ≡ true =
          subst (λ z. less z a ≡ true) e (subst (λ z. less a z ≡ true) (sym e) h) in
        false≢true (sym (asym a b h) ∙ h')

    heads :
        (x y : A) (xs ys : List A)
        → IsStrict (x ∷ xs)
        → IsStrict (y ∷ ys)
        → ((z : A) → Mem z (x ∷ xs) ↔ Mem z (y ∷ ys))
        → x ≡ y
    heads x y xs ys ax ay same =
        Or.elim (set x y) (mem-cons.0 ((same x).0 (mem-cons.1 (Or.inl refl)))) (λ e. e)
          λ mx. Or.elim (set x y) (mem-cons.0 ((same y).1 (mem-cons.1 (Or.inl refl)))) sym λ my.
            absurd (
              false≢true
                (sym (asym y x ((Pairwise-cons.0 ay).0 x mx)) ∙ (Pairwise-cons.0 ax).0 y my))

    tail :
        (x y : A) (xs ys : List A)
        → x ≡ y
        → IsStrict (x ∷ xs)
        → ((z : A) → Mem z (x ∷ xs) → Mem z (y ∷ ys))
        → (z : A) → Mem z xs
        → Mem z ys
    tail x y xs ys e ax into z m =
        Or.elim Mem-prop (mem-cons.0 (into z (mem-cons.1 (Or.inr m))))
          (λ q. absurd (irrefl x z (e ∙ sym q) ((Pairwise-cons.0 ax).0 z m))) (λ i. i)

    pub IsStrict-eq_of_mem :
        (xs ys : List A) → IsStrict xs → IsStrict ys → ((z : A) → Mem z xs ↔ Mem z ys) → xs ≡ ys
    IsStrict-eq_of_mem [] [] ax ay same = refl
    IsStrict-eq_of_mem [] (y ∷ ys) ax ay same =
        absurd (not-mem-nil ((same y).1 (mem-cons.1 (Or.inl refl))))
    IsStrict-eq_of_mem (x ∷ xs) [] ax ay same =
        absurd (not-mem-nil ((same x).0 (mem-cons.1 (Or.inl refl))))
    IsStrict-eq_of_mem (x ∷ xs) (y ∷ ys) ax ay same =
        let e = heads x y xs ys ax ay same in
        ap₂ ◌∷◌ e (
          IsStrict-eq_of_mem xs ys (Pairwise-cons.0 ax).1 (Pairwise-cons.0 ay).1 (λ z. (
            tail x y xs ys e ax (λ w. (same w).0) z,
            tail y x ys xs (sym e) ay (λ w. (same w).1) z,
          )))
