-- ===== src/Sorting.antt =====
-- `sort_by` and `sort_unstable` of the standard library, as an insertion sort by a total order.
pub mod Orders
use cosaci.Prelude.{Bool, List, [], ◌∷◌, if◌then◌else◌}

module _ {ℓ} {A : Type ℓ} (before : A → A → Bool) where
  unfoldable pub insert : A → List A → List A
  insert a [] = a ∷ []
  insert a (b ∷ xs) = let rest = insert a xs in if before a b then a ∷ b ∷ xs else b ∷ rest

  unfoldable pub sort : List A → List A
  sort [] = []
  sort (a ∷ xs) = insert a (sort xs)
