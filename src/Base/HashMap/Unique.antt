-- ===== src/Base/HashMap/Unique.antt =====
-- A map has each key once: what every operation of `HashMap` keeps.
use Prim.Native.Nat.{ℕ, ◌≤◌, ◌<◌}
use mathlib.Core.Path.{◌≡◌, subst}
use mathlib.Core.Bool.{true}
use mathlib.Core.Logic.{inl, inr}
use mathlib.Core.Option.{none, some, none-ne-some}
use mathlib.Core.List.{[], ◌∷◌}
use native.Mathlib.Omega.{arith}
use syncpond.Base.Tests.{Bool-cases, unwrap_or}
use syncpond.Base.Eq.{Eq, nat_eq, ◌==◌, ==_refl}
use syncpond.Base.HashMap.{HashMap, get, insert, remove, contains_key, get-remove}

module _ {ℓ κ} {K : Type ℓ} {V : Type κ} ⦃e : Eq K⦄ where
  abbrev pub IsMap : HashMap K V → Type κ
  IsMap [] = Unit
  IsMap ((k, v) ∷ m) = (get k m ≡ none) × IsMap m

  pub IsMap-remove : (k : K) (m : HashMap K V) → IsMap m → IsMap (remove k m)
  unfolding remove
  IsMap-remove k [] h = h
  IsMap-remove k ((j, v) ∷ m) h = ground (arith, IsMap-remove k m h.1, get-remove k j m)

  pub IsMap-insert : (k : K) (v : V) (m : HashMap K V) → IsMap m → IsMap (insert k v m)
  unfolding insert
  IsMap-insert k v m h = (ground (arith, get-remove k k m, ==_refl k), IsMap-remove k m h)

  -- The values of the map all satisfy `P`.
  abbrev pub Values {μ} : (V → Type μ) → HashMap K V → Type μ
  Values P [] = Unit
  Values P ((k, v) ∷ m) = P v × Values P m

  pub Values-remove {μ} :
      (P : V → Type μ) (k : K) (m : HashMap K V) → Values P m → Values P (remove k m)
  unfolding remove
  Values-remove P k [] h = h
  Values-remove P k ((j, v) ∷ m) h = ground (arith, Values-remove P k m h.1)

  pub Values-insert {μ} :
      (P : V → Type μ) (k : K) (v : V) (m : HashMap K V)
      → P v
      → Values P m
      → Values P (insert k v m)
  unfolding insert
  Values-insert P k v m p h = (p, Values-remove P k m h)

  pub Values-get {μ} :
      (P : V → Type μ) (k : K) (m : HashMap K V) (d : V)
      → P d
      → Values P m
      → P (unwrap_or (get k m) d)
  unfolding get
  Values-get P k [] d p h = p
  Values-get P k ((j, v) ∷ m) d p h = ground (arith, Values-get P k m d p h.1)

  pub Values-at {μ} :
      (P : V → Type μ) (k : K) (v : V) (m : HashMap K V) → Values P m → get k m ≡ some v → P v
  unfolding get
  Values-at P k v [] h at_k = absurd (none-ne-some v at_k)
  Values-at P k v ((j, w) ∷ m) h at_k = elim (Bool-cases (j == k)) [
    | inl e ↦ let same : w ≡ v = ground arith in subst P same h.0
    | inr e ↦ Values-at P k v m h.1 (ground arith)
  ]

-- Every key of a map of numbers lies below a bound.
module _ {ℓ} {V : Type ℓ} where
  abbrev pub Below : ℕ → HashMap ℕ V → Type 0
  Below n [] = Unit {0}
  Below n ((k, v) ∷ m) = (k < n) × Below n m

  pub Below-mono : (n p : ℕ) (m : HashMap ℕ V) → n ≤ p → Below n m → Below p m
  Below-mono n p [] h b = tt
  Below-mono n p ((k, v) ∷ m) h b = (omega arith, Below-mono n p m h b.1)

  pub Below-remove : (n k : ℕ) (m : HashMap ℕ V) → Below n m → Below n (remove k m)
  unfolding remove
  Below-remove n k [] b = tt
  Below-remove n k ((j, v) ∷ m) b = ground (arith, Below-remove n k m b.1)

  pub Below-insert :
      (n k : ℕ) (v : V) (m : HashMap ℕ V) → k < n → Below n m → Below n (insert k v m)
  unfolding insert
  Below-insert n k v m h b = (h, Below-remove n k m b)

  pub Below-contains : (n k : ℕ) (m : HashMap ℕ V) → Below n m → contains_key k m ≡ true → k < n
  unfolding contains_key get
  Below-contains n k [] b h = cc
  Below-contains n k ((j, v) ∷ m) b h = ground (arith, Below-contains n k m b.1)
