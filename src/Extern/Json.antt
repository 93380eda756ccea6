-- ===== src/Extern/Json.antt =====
-- The crate serde_json: its `Value` is a type parameter, and this is what the program uses of it.
use Prim.Native.Nat.{ℕ}
use Prim.Native.String.{String}
use mathlib.Core.Path.{◌≡◌}
use mathlib.Core.Bool.{Bool, true}
use mathlib.Core.Option.{Option, some}
use mathlib.Core.List.{List}

-- `Vec<u8>`
abbrev pub Bytes : Type 0
Bytes = List ℕ

pub record Json (V : Type 0) : Type 0 where
  -- `Value::Null`, and `Value::String`
  pub null : V
  pub string : String → V
  pub is_null : V → Bool
  -- `serde_json::from_slice`, and `serde_json::to_vec`
  pub from_slice : Bytes → Option V
  pub to_vec : V → Option Bytes
  -- `is_null` is true of `Value::Null`, and of nothing else.
  pub is_null-null : is_null null ≡ true
  pub eq-null_of_is_null : (v : V) → is_null v ≡ true → v ≡ null
  -- No floating point number in the value is changed by printing and reading it, and the value is
  -- not nested more deeply than the crate reads: it is built without its feature `float_roundtrip`,
  -- so that a float may come back as its neighbour, and it reads at most 128 levels.
  pub is_exact : V → Bool
  -- What was serialized is read back, where it is exact.
  pub from_slice-to_vec :
      (v : V) (bytes : Bytes)
      → is_exact v ≡ true
      → to_vec v ≡ some bytes
      → from_slice bytes ≡ some v
