-- ===== src/Base/Sort/Order.antt =====
-- Sorting keeps the elements and puts them in order.
use Prim.Native.Nat.{ℕ}
use Prim.Native.String.{String, [], ◌∷◌ as str_cons}
use Prim.Native.String.compare
use mathlib.Core.Path.{◌≡◌, refl}
use mathlib.Core.Bool.{Bool, true, false, ◌||◌}
use mathlib.Core.List.{List, ◌∷◌}
use native.Mathlib.Omega.{arith}
use syncpond.Base.Tests.{leb}
use syncpond.Base.Eq.{Eq, nat_eq, string_eq, ◌==◌}
use syncpond.Base.HashSet.{contains}
use syncpond.Base.Sort.{insert_sorted, sort_by, le_text, sort_unstable, sort_text}

module _ {ℓ} {A : Type ℓ} (le : A → A → Bool) where
  abbrev pub Before : A → List A → Type 0
  Before a List.[] = Unit {0}
  Before a (x ∷ xs) = le a x ≡ true

  -- Each element is at most the next one.
  abbrev pub IsAscending : List A → Type 0
  IsAscending List.[] = Unit {0}
  IsAscending (x ∷ xs) = Before x xs × IsAscending xs

module _ {ℓ} {A : Type ℓ} ⦃e : Eq A⦄ (le : A → A → Bool) where
  contains-insert_sorted :
      (a b : A) (xs : List A) → contains b (insert_sorted le a xs) ≡ ((a == b) || contains b xs)
  unfolding insert_sorted contains
  contains-insert_sorted a b List.[] = refl
  contains-insert_sorted a b (x ∷ xs) = ground (arith, contains-insert_sorted a b xs)

  pub contains-sort_by : (b : A) (xs : List A) → contains b (sort_by le xs) ≡ contains b xs
  unfolding sort_by contains
  contains-sort_by b List.[] = refl
  contains-sort_by b (x ∷ xs) =
      ground (arith, contains-insert_sorted x b (sort_by le xs), contains-sort_by b xs)

module _ {ℓ} {A : Type ℓ} (le : A → A → Bool)
    (total : (a b : A) → le a b ≡ false → le b a ≡ true) where
  insert_sorted-Before :
      (a x : A) (xs : List A) → le x a ≡ true → Before le x xs → Before le x (insert_sorted le a xs)
  unfolding insert_sorted
  insert_sorted-Before a x List.[] h b = h
  insert_sorted-Before a x (y ∷ ys) h b = ground arith

  insert_sorted-IsAscending :
      (a : A) (xs : List A) → IsAscending le xs → IsAscending le (insert_sorted le a xs)
  unfolding insert_sorted
  insert_sorted-IsAscending a List.[] h = (tt, tt)
  insert_sorted-IsAscending a (x ∷ xs) h =
      ground (arith, total a x, insert_sorted-IsAscending a xs h.1, insert_sorted-Before a x xs)

  pub sort_by-IsAscending : (xs : List A) → IsAscending le (sort_by le xs)
  unfolding sort_by
  sort_by-IsAscending List.[] = tt
  sort_by-IsAscending (x ∷ xs) = insert_sorted-IsAscending x _ (sort_by-IsAscending xs)

leb_total : (a b : ℕ) → leb a b ≡ false → leb b a ≡ true
leb_total a b h = ground arith

le_text_total : (s t : String) → le_text s t ≡ false → le_text t s ≡ true
le_text_total [] [] h = refl
le_text_total [] (str_cons d t) h = cc (compare.nil-cons d t)
le_text_total (str_cons c s) [] h = cc (compare.nil-cons c s)
le_text_total (str_cons c s) (str_cons d t) h =
    ground (arith, compare.cons-cons c d s t, compare.cons-cons d c t s, le_text_total s t)

pub sort_unstable-IsAscending : (xs : List ℕ) → IsAscending leb (sort_unstable xs)
unfolding sort_unstable
sort_unstable-IsAscending xs = sort_by-IsAscending leb leb_total xs

pub sort_text-IsAscending : (xs : List String) → IsAscending le_text (sort_text xs)
unfolding sort_text
sort_text-IsAscending xs = sort_by-IsAscending le_text le_text_total xs

pub contains-sort_unstable : (b : ℕ) (xs : List ℕ) → contains b (sort_unstable xs) ≡ contains b xs
unfolding sort_unstable
contains-sort_unstable b xs = contains-sort_by leb b xs

pub contains-sort_text : (b : String) (xs : List String) → contains b (sort_text xs) ≡ contains b xs
unfolding sort_text
contains-sort_text b xs = contains-sort_by le_text b xs
