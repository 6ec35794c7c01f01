-- ===== src/Base/Sort.antt =====
-- `sort.Slice` and `sort.Strings`: the insertion sort that Go's `sort` runs on at most twelve
-- elements. Where the order is strict and total on the elements, every correct sort gives the
-- same list, so the length does not matter there.
pub mod Laws
pub mod Unique
use mathlib.Core.List.{List, [], ◌∷◌, reverse}
use mathlib.Core.Bool.{Bool, true, false}
use eggdfs.Base.Tests.{if◌then◌else◌}
use eggdfs.Base.Text.{Text}
use eggdfs.Base.Text.Order.{text_lt}

module _ {ℓ} {A : Type ℓ} (less : A → A → Bool) where
  -- The sorted part stands with its last element first; `x` moves left while it is less.
  unfoldable pub sift : A → List A → List A
  sift x [] = x ∷ []
  sift x (y ∷ ys) = if less x y then y ∷ sift x ys else x ∷ y ∷ ys

  unfoldable pub sift_all : List A → List A → List A
  sift_all acc [] = acc
  sift_all acc (x ∷ xs) = sift_all (sift x acc) xs

  unfoldable pub sort_slice : List A → List A
  unfolding sift sift_all
  sort_slice l = reverse (sift_all [] l)

unfoldable pub sort_strings : List Text → List Text
unfolding sort_slice text_lt
sort_strings = sort_slice text_lt
