-- ===== src/Tests/Values.antt =====
-- JSON values that the tests use: null and numbers, where a text stands for its length.
use Prim.Native.String.{len}
use syncpond.Base.{ℕ, zero, suc, ◌≡◌, refl, Bool, true, false, Option, none, some, [], ◌∷◌, arith}
use syncpond.Extern.Json.{Json, Bytes}

pub data Value : Type 0 where
  null : Value
  number : ℕ → Value

unfoldable pub is_null : Value → Bool
is_null null = true
is_null (number n) = false

unfoldable pub from_slice : Bytes → Option Value
from_slice [] = none
from_slice (zero ∷ bytes) = some null
from_slice (suc n ∷ bytes) = some (number n)

unfoldable pub to_vec : Value → Option Bytes
to_vec null = some (0 ∷ [])
to_vec (number n) = some (suc n ∷ [])

pub eq-null : (v : Value) → is_null v ≡ true → v ≡ null
unfolding is_null
eq-null null h = refl
eq-null (number n) h = cc

pub from-to :
    (v : Value) (bytes : Bytes) → true ≡ true → to_vec v ≡ some bytes → from_slice bytes ≡ some v
unfolding to_vec from_slice
from-to null bytes exact h = ground arith
from-to (number n) bytes exact h = ground arith

instance unfoldable pub value_json : Json Value
unfolding is_null from_slice to_vec
value_json = record {
  null = null;
  string = λ s. number (len s);
  is_null = is_null;
  from_slice = from_slice;
  to_vec = to_vec;
  is_null-null = refl;
  eq-null_of_is_null = eq-null;
  is_exact = λ v. true;
  from_slice-to_vec = from-to;
}
