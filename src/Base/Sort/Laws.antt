-- ===== src/Base/Sort/Laws.antt =====
-- The sort permutes, and under a strict weak order its result ascends. Two ascending lists with
-- the same elements are equal where the order is total.
use mathlib.Core.Path.{◌≡◌, refl, sym, ap₂, subst}
use mathlib.Core.Logic.{inl, inr}
use mathlib.Core.Logic.Or
use mathlib.Core.Bool.{Bool, true, false, Bool-set}
use mathlib.Core.List.{
  List, [], ◌∷◌, ◌++◌, Perm, mem-cons, reverse_perm, perm-cons, perm_middle, append-nil,
  not-mem-nil, Pairwise, Pairwise-cons, Pairwise-reverse,
}
use mathlib.Core.List.Perm
use eggdfs.Base.Tests.{Bool-cases}
use eggdfs.Base.Text.{Text, Text-set}
use eggdfs.Base.Text.Order.{text_lt, text_lt_asym, text_lt_neg_trans, text_lt_antisymm}
use eggdfs.Base.Sort.{sift, sift_all, sort_slice, sort_strings}

pub record IsOrder {ℓ} {A : Type ℓ} (less : A → A → Bool) : Type ℓ where
  pub asym : (a b : A) → less a b ≡ true → less b a ≡ false
  pub neg_trans : (a b c : A) → less a b ≡ false → less b c ≡ false → less a c ≡ false

text_lt-IsOrder : IsOrder text_lt
text_lt-IsOrder = record { asym = text_lt_asym; neg_trans = text_lt_neg_trans }

module _ {ℓ} {A : Type ℓ} (less : A → A → Bool) where
  sift-perm : (x : A) (l : List A) → Perm (sift less x l) (x ∷ l)
  unfolding sift
  sift-perm x [] = Perm.refl _
  sift-perm x (y ∷ ys) = elim (Bool-cases (less x y)) [
    | inl left ↦ rw left (Perm.trans (Perm.cons y (sift-perm x ys)) (Perm.swap x y ys))
    | inr stay ↦ rw stay (Perm.refl _)
  ]

  sift_all-perm : (acc l : List A) → Perm (sift_all less acc l) (acc ++ l)
  unfolding sift_all
  sift_all-perm acc [] = rw append-nil (Perm.refl acc)
  sift_all-perm acc (x ∷ xs) =
      Perm.trans (sift_all-perm (sift less x acc) xs)
        (Perm.trans (Perm.append_right xs (sift-perm x acc)) (Perm.symm (perm_middle acc xs)))

  pub sort_slice-perm : (l : List A) → Perm (sort_slice less l) l
  unfolding sort_slice
  sort_slice-perm l = Perm.trans (reverse_perm _) (sift_all-perm [] l)

  -- Nothing later in the list is less than anything earlier.
  abbrev pub IsAscending : List A → Type ℓ
  IsAscending = Pairwise (λ a b. less b a ≡ false)

  module _ (o : IsOrder less) where
    sift-descending :
        (x : A) (l : List A)
        → Pairwise (λ a b. less a b ≡ false) l
        → Pairwise (λ a b. less a b ≡ false) (sift less x l)
    unfolding sift
    sift-descending x [] d = Pairwise-cons.1 ((λ b m. absurd (not-mem-nil m)), Pairwise.nil)
    sift-descending x (y ∷ ys) d = elim (Bool-cases (less x y)) [
      | inl left ↦ rw left (
          Pairwise-cons.1 (
            (λ b m.
                Or.elim (Bool-set _ _) (mem-cons.0 ((Perm.mem_iff (sift-perm x ys)).0 m))
                  (λ e. rw e (o.asym x y left)) (λ m'. (Pairwise-cons.0 d).0 b m')),
            sift-descending x ys (Pairwise-cons.0 d).1,
          ))
      | inr stay ↦ rw stay (
          Pairwise-cons.1 (
            (λ b m.
                Or.elim (Bool-set _ _) (mem-cons.0 m) (λ e. rw e stay)
                  (λ m'. o.neg_trans x y b stay ((Pairwise-cons.0 d).0 b m'))),
            d,
          ))
    ]

    sift_all-descending :
        (acc l : List A)
        → Pairwise (λ a b. less a b ≡ false) acc
        → Pairwise (λ a b. less a b ≡ false) (sift_all less acc l)
    unfolding sift_all
    sift_all-descending acc [] d = d
    sift_all-descending acc (x ∷ xs) d =
        sift_all-descending (sift less x acc) xs (sift-descending x acc d)

    pub sort_slice-IsAscending : (l : List A) → IsAscending (sort_slice less l)
    unfolding sort_slice
    sort_slice-IsAscending l =
        (Pairwise-reverse (λ a b. Bool-set _ _)).1 (sift_all-descending [] l Pairwise.nil)

module _ {ℓ} {A : Type ℓ} (less : A → A → Bool) where
  head_eq :
      ((a b : A) → less a b ≡ false → less b a ≡ false → a ≡ b)
      → (x y : A) (xs ys : List A) → ((a b : A) → IsProp (a ≡ b))
      → IsAscending less (x ∷ xs)
      → IsAscending less (y ∷ ys)
      → Perm (x ∷ xs) (y ∷ ys)
      → x ≡ y
  head_eq anti x y xs ys s ax ay p =
      Or.elim (s x y) (mem-cons.0 ((Perm.mem_iff p).0 (mem-cons.1 (Or.inl refl)))) (λ e. e)
        λ mx.
          Or.elim (s x y) (mem-cons.0 ((Perm.mem_iff (Perm.symm p)).0 (mem-cons.1 (Or.inl refl))))
            sym λ my. anti x y ((Pairwise-cons.0 ay).0 x mx) ((Pairwise-cons.0 ax).0 y my)

  IsAscending-eq_of_perm :
      ((a b : A) → less a b ≡ false → less b a ≡ false → a ≡ b)
      → ((a b : A) → IsProp (a ≡ b))
      → (xs ys : List A) → IsAscending less xs
      → IsAscending less ys
      → Perm xs ys
      → xs ≡ ys
  IsAscending-eq_of_perm anti s [] ys ax ay p = sym (Perm.eq-nil (Perm.symm p))
  IsAscending-eq_of_perm anti s (x ∷ xs) [] ax ay p = Perm.eq-nil p
  IsAscending-eq_of_perm anti s (x ∷ xs) (y ∷ ys) ax ay p =
      let e = head_eq anti x y xs ys s ax ay p in
      ap₂ ◌∷◌ e (
        IsAscending-eq_of_perm anti s xs ys (Pairwise-cons.0 ax).1 (Pairwise-cons.0 ay).1
          ((perm-cons y).0 (subst (λ z. Perm (z ∷ xs) (y ∷ ys)) e p)))

-- What `sort.Strings` returns depends on the elements alone, not on their order.
pub sort_strings_of_perm : (l m : List Text) → Perm l m → sort_strings l ≡ sort_strings m
unfolding sort_strings
sort_strings_of_perm l m p =
    IsAscending-eq_of_perm text_lt text_lt_antisymm Text-set _ _
      (sort_slice-IsAscending text_lt text_lt-IsOrder l)
      (sort_slice-IsAscending text_lt text_lt-IsOrder m)
      (Perm.trans (sort_slice-perm text_lt l)
        (Perm.trans p (Perm.symm (sort_slice-perm text_lt m))))

pub sort_strings-perm : (l : List Text) → Perm (sort_strings l) l
unfolding sort_strings
sort_strings-perm l = sort_slice-perm text_lt l

pub sort_strings-IsAscending : (l : List Text) → IsAscending text_lt (sort_strings l)
unfolding sort_strings
sort_strings-IsAscending l = sort_slice-IsAscending text_lt text_lt-IsOrder l
