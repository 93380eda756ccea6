-- ===== src/Base/HashSet/Distinct.antt =====
-- A set holds each element once, so that its length counts its elements.
use Prim.Native.Nat.{suc, ◌≤◌}
use mathlib.Core.Path.{◌≡◌, refl}
use mathlib.Core.Bool.{false}
use mathlib.Core.List.{[], ◌∷◌}
use native.Mathlib.Omega.{arith}
use syncpond.Base.Tests.{if◌then◌else◌, length, is_empty}
use syncpond.Base.Eq.{Eq, ==_iff}
use syncpond.Base.HashSet.{HashSet, contains, insert, remove, contains-remove}

module _ {ℓ} {A : Type ℓ} ⦃e : Eq A⦄ where
  abbrev pub IsDistinct : HashSet A → Type 0
  IsDistinct [] = Unit {0}
  IsDistinct (x ∷ s) = (contains x s ≡ false) × IsDistinct s

  pub insert-IsDistinct : (a : A) (s : HashSet A) → IsDistinct s → IsDistinct (insert a s)
  unfolding insert
  insert-IsDistinct a s d = ground arith

  pub remove-IsDistinct : (a : A) (s : HashSet A) → IsDistinct s → IsDistinct (remove a s)
  unfolding remove
  remove-IsDistinct a [] d = d
  remove-IsDistinct a (x ∷ s) d =
      ground (arith, remove-IsDistinct a s d.1, contains-remove a x s, ==_iff a x)

  pub length-insert :
      (a : A) (s : HashSet A)
      → length (insert a s) ≡ (if contains a s then length s else suc (length s))
  unfolding insert
  length-insert a s = ground arith

  pub length-remove : (a : A) (s : HashSet A) → length (remove a s) ≤ length s
  unfolding remove
  length-remove a [] = ground arith
  length-remove a (x ∷ s) = ground (arith, length-remove a s)

  pub is_empty-insert : (a : A) (s : HashSet A) → is_empty (insert a s) ≡ false
  unfolding insert contains
  is_empty-insert a [] = refl
  is_empty-insert a (x ∷ s) = ground arith
