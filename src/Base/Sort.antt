-- ===== src/Base/Sort.antt =====
-- `sort` and `sort_unstable` of numbers and of texts, as insertion sort: both return the elements
-- in order, and equal elements are the same.
pub mod Order
use Prim.Native.Nat.{ℕ}
use Prim.Native.String.{String, compare}
use mathlib.Core.Bool.{Bool}
use mathlib.Core.List.{List, [], ◌∷◌}
use text.Mathlib.Text.{is_le}
use syncpond.Base.Tests.{leb, if◌then◌else◌}

module _ {ℓ} {A : Type ℓ} (le : A → A → Bool) where
  insert_sorted : A → List A → List A
  insert_sorted a [] = a ∷ []
  insert_sorted a (x ∷ xs) =
      let rest = insert_sorted a xs in if le a x then a ∷ x ∷ xs else x ∷ rest

  unfoldable pub sort_by : List A → List A
  unfolding insert_sorted
  sort_by [] = []
  sort_by (x ∷ xs) = insert_sorted x (sort_by xs)

abbrev pub le_text : String → String → Bool
le_text s t = is_le (compare s t)

unfoldable pub sort_unstable : List ℕ → List ℕ
unfolding sort_by
sort_unstable = sort_by leb

unfoldable pub sort_text : List String → List String
unfolding sort_by
sort_text = sort_by le_text
