-- ===== src/Base/Eq.antt =====
-- The bound `K: Eq`, at the keys that the program uses: u64 and String.
use Prim.Native.Nat.{ℕ}
use Prim.Native.String.{String}
use mathlib.Core.Path.{◌≡◌, refl, sym, ap}
use mathlib.Core.Logic.{◌↔◌}
use mathlib.Core.Bool.{Bool, true, false}
use text.Mathlib.Text.{◌==◌ as str_eq}
use text.Mathlib.TextEquality.{eq_iff}
use syncpond.Base.Tests.{eqb, eqb_iff}

-- `PartialEq::eq` of a type whose values are equal exactly when it says so
pub record Eq {μ} (K : Type μ) : Type μ where
  pub eq : K → K → Bool
  pub reflects : (j k : K) → (eq j k ≡ true) ↔ (j ≡ k)

module _ {μ} {K : Type μ} ⦃E : Eq K⦄ where
  infix 50 ◌==◌
  abbrev pub ◌==◌ : K → K → Bool
  j == k = E.eq j k

  pub ==_iff : (j k : K) → ((j == k) ≡ true) ↔ (j ≡ k)
  ==_iff j k = E.reflects j k

  pub ==_refl : (k : K) → (k == k) ≡ true
  ==_refl k = (E.reflects k k).1 refl

instance abbrev pub string_eq : Eq String
string_eq = record { eq = str_eq; reflects = eq_iff }

instance abbrev pub nat_eq : Eq ℕ
nat_eq = record { eq = eqb; reflects = eqb_iff }

bool_ext : (x y : Bool) → (x ≡ true → y ≡ true) → (y ≡ true → x ≡ true) → x ≡ y
bool_ext true true f g = refl
bool_ext true false f g = sym (f refl)
bool_ext false true f g = g refl
bool_ext false false f g = refl

-- An injective function keeps the outcome of a comparison.
pub ==_injective {ℓ κ} :
    {A : Type ℓ} {B : Type κ} ⦃d : Eq A⦄ ⦃e : Eq B⦄ (f : A → B) (a b : A)
    → (f a ≡ f b → a ≡ b)
    → (f a == f b) ≡ (a == b)
==_injective f a b h =
    bool_ext (f a == f b) (a == b) (λ p. (==_iff a b).1 (h ((==_iff (f a) (f b)).0 p)))
      (λ p. (==_iff (f a) (f b)).1 (ap f ((==_iff a b).0 p)))
