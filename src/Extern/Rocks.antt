-- ===== src/Extern/Rocks.antt =====
-- The crates rocksdb, lru and serde_json as server/crates/sp-kernel/src/persistance/mod.rs uses
-- them: a store of bytes by key, a cache of bounded size, and what turns a type to bytes.
use Prim.Native.Nat.{ℕ}
use Prim.Native.String.{String}
use mathlib.Core.Path.{◌≡◌}
use mathlib.Core.Logic.{◌⊎◌}
use mathlib.Core.Bool.{Bool}
use mathlib.Core.Option.{Option, none, some}
use mathlib.Core.List.{List, [], ◌∷◌}
use syncpond.Base.{Result, ok, err, if◌then◌else◌}
use syncpond.Base.Eq.{nat_eq, string_eq, ◌==◌}
use syncpond.Extern.Json.{Bytes}

-- What the iterator gives: entries, whose key is `none` where it is no UTF-8, or errors.
abbrev pub Items : Type 0
Items = List (Result (Option String × Bytes) String)

-- Some item is this entry.
abbrev pub Has : String → Bytes → Items → Type 0
Has k v [] = ⊥
Has k v (item ∷ items) = (item ≡ ok (some k, v)) ⊎ Has k v items

-- No item is an error.
abbrev pub IsReadable : Items → Type 0
IsReadable [] = Unit {0}
IsReadable (ok entry ∷ items) = IsReadable items
IsReadable (err e ∷ items) = ⊥

-- `rocksdb::DB`: `D` is the type of a store.
pub record Rocks (D : Type 0) : Type 0 where
  pub db_get : String → D → Result (Option Bytes) String
  pub db_put : String → Bytes → D → Result (Unit {0}) String × D
  pub db_delete : String → D → Result (Unit {0}) String × D
  pub iterator : D → Items
  -- What was put is what is read.
  pub get-put :
      (j k : String) (v : Bytes) (d d1 : D)
      → db_put k v d ≡ (ok tt, d1)
      → db_get j d1 ≡ (if k == j then ok (some v) else db_get j d)
  pub get-delete :
      (j k : String) (d d1 : D)
      → db_delete k d ≡ (ok tt, d1)
      → db_get j d1 ≡ (if k == j then ok none else db_get j d)
  -- The iterator gives what can be read, and unless it fails, all of it.
  pub iterator_sound :
      (k : String) (v : Bytes) (d : D) → Has k v (iterator d) → db_get k d ≡ ok (some v)
  pub iterator_complete :
      (k : String) (v : Bytes) (d : D)
      → IsReadable (iterator d)
      → db_get k d ≡ ok (some v)
      → Has k v (iterator d)

-- `lru::LruCache<u64, A>`: `C` is the type of a cache.
pub record Lru (A C : Type 0) : Type 0 where
  pub cache_get : ℕ → C → Option A × C
  pub cache_put : ℕ → A → C → C
  -- Reading changes no entry; what was put is read until it is evicted.
  pub get-get : (j k : ℕ) (c : C) → (cache_get j ((cache_get k c).1)).0 ≡ (cache_get j c).0
  pub get-put_self : (k : ℕ) (a : A) (c : C) → (cache_get k (cache_put k a c)).0 ≡ some a
  pub get-put_other :
      (j k : ℕ) (a : A) (c : C)
      → (j == k) ≡ Bool.false
      → ((cache_get j (cache_put k a c)).0 ≡ (cache_get j c).0)
        ⊎ ((cache_get j (cache_put k a c)).0 ≡ none)

-- `serde_json::to_vec` and `serde_json::from_slice` of a type of the program.
pub record Serde (A : Type 0) : Type 0 where
  pub serialize : A → Result Bytes String
  pub deserialize : Bytes → Result A String
  pub deserialize-serialize :
      (a : A) (bytes : Bytes) → serialize a ≡ ok bytes → deserialize bytes ≡ ok a
