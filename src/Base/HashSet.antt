-- ===== src/Base/HashSet.antt =====
-- `std::collections::HashSet` as a list without repetitions.
pub mod Distinct
use mathlib.Core.Path.{◌≡◌, refl}
use mathlib.Core.Bool.{Bool, true, false, ◌||◌}
use mathlib.Core.List.{List, [], ◌∷◌}
use native.Mathlib.Omega.{arith}
use syncpond.Base.Tests.{if◌then◌else◌, Bool-cases}
use syncpond.Base.Eq.{Eq, ◌==◌, ==_iff, ==_refl}

abbrev pub HashSet {ℓ} : Type ℓ → Type ℓ
HashSet A = List A

module _ {ℓ} {A : Type ℓ} ⦃e : Eq A⦄ where
  unfoldable pub contains : A → HashSet A → Bool
  contains a [] = false
  contains a (x ∷ s) = x == a || contains a s

  unfoldable pub insert : A → HashSet A → HashSet A
  unfolding contains
  insert a s = if contains a s then s else a ∷ s

  unfoldable pub remove : A → HashSet A → HashSet A
  remove a [] = []
  remove a (x ∷ s) = let rest = remove a s in if x == a then rest else x ∷ rest

  -- `iter().collect()`
  unfoldable pub collect : List A → HashSet A
  unfolding insert
  collect [] = []
  collect (x ∷ l) = insert x (collect l)

  pub contains-insert :
      (a b : A) (s : HashSet A) → contains b (insert a s) ≡ (if a == b then true else contains b s)
  unfolding insert
  contains-insert a b s = ground (arith, ==_iff a b)

  pub contains-remove :
      (a b : A) (s : HashSet A) → contains b (remove a s) ≡ (if a == b then false else contains b s)
  unfolding contains remove
  contains-remove a b [] = ground arith
  contains-remove a b (x ∷ s) =
      ground (arith, contains-remove a b s, ==_iff x a, ==_iff x b, ==_iff a b)

  pub contains-collect : (a : A) (l : List A) → contains a (collect l) ≡ contains a l
  unfolding collect contains
  contains-collect a [] = refl
  contains-collect a (x ∷ l) = ground (arith, contains-insert x a (collect l), contains-collect a l)
