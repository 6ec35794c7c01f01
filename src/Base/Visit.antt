-- ===== src/Base/Visit.antt =====
-- The order in which one `range` over a map visits its values: any order, each value once.
use mathlib.Core.List.{List, Perm, reverse, reverse_perm}
use mathlib.Core.List.Perm

pub record Visit {ℓ} (A : Type ℓ) : Type ℓ where
  pub visit : List A → List A
  pub visit-perm : (l : List A) → Perm (visit l) l

module _ {ℓ} {A : Type ℓ} where
  abbrev pub forwards : Visit A
  forwards = record { visit = λ l. l; visit-perm = Perm.refl }

  abbrev pub backwards : Visit A
  backwards = record { visit = reverse; visit-perm = reverse_perm }
