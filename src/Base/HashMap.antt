-- ===== src/Base/HashMap.antt =====
-- `std::collections::HashMap` as an association list. The order of its entries stands for the
-- order in which the map is iterated, which Rust leaves open: no theorem rests on it.
pub mod Unique
use mathlib.Core.Path.{◌≡◌, refl}
use mathlib.Core.Bool.{Bool, true, false}
use mathlib.Core.Option.{Option, none, some}
use mathlib.Core.List.{List, [], ◌∷◌, map}
use native.Mathlib.Omega.{arith}
use syncpond.Base.Tests.{if◌then◌else◌, is_some, unwrap_or}
use syncpond.Base.Eq.{Eq, ◌==◌, ==_iff, ==_refl}

abbrev pub HashMap {ℓ κ} : Type ℓ → Type κ → Type (ℓ ⊔ κ)
HashMap K V = List (K × V)

module _ {ℓ κ} {K : Type ℓ} {V : Type κ} ⦃e : Eq K⦄ where
  unfoldable pub get : K → HashMap K V → Option V
  get k [] = none
  get k ((j, v) ∷ m) = if j == k then some v else get k m

  unfoldable pub remove : K → HashMap K V → HashMap K V
  remove k [] = []
  remove k ((j, v) ∷ m) = let rest = remove k m in if j == k then rest else (j, v) ∷ rest

  unfoldable pub insert : K → V → HashMap K V → HashMap K V
  unfolding remove
  insert k v m = (k, v) ∷ remove k m

  unfoldable pub contains_key : K → HashMap K V → Bool
  unfolding get
  contains_key k m = is_some (get k m)

  pub get-remove :
      (k j : K) (m : HashMap K V) → get j (remove k m) ≡ (if k == j then none else get j m)
  unfolding get remove
  get-remove k j [] = ground arith
  get-remove k j ((i, v) ∷ m) = ground (arith, get-remove k j m, ==_iff i k, ==_iff i j, ==_iff k j)

  pub get-insert :
      (k j : K) (v : V) (m : HashMap K V)
      → get j (insert k v m) ≡ (if k == j then some v else get j m)
  unfolding get insert
  get-insert k j v m = ground (arith, get-remove k j m)

  pub get-insert_self : (k : K) (v : V) (m : HashMap K V) → get k (insert k v m) ≡ some v
  get-insert_self k v m = ground (arith, get-insert k k v m, ==_refl k)

abbrev pub keys {ℓ κ} : {K : Type ℓ} {V : Type κ} → HashMap K V → List K
keys = map (λ p. p.0)

module _ {ℓ κ} {K : Type ℓ} {V : Type κ} ⦃e : Eq K⦄ where
  pub contains_key-insert :
      (k j : K) (v : V) (m : HashMap K V)
      → contains_key j (insert k v m) ≡ (if k == j then true else contains_key j m)
  unfolding contains_key
  contains_key-insert k j v m = ground (arith, get-insert k j v m)

  pub contains_key-remove :
      (k j : K) (m : HashMap K V)
      → contains_key j (remove k m) ≡ (if k == j then false else contains_key j m)
  unfolding contains_key
  contains_key-remove k j m = ground (arith, get-remove k j m)
