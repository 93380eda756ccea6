-- ===== src/Tests/Stores.antt =====
-- A store and a cache that the tests use. The store never fails.
mod Serializers
use Prim.Native.String.{String}
use syncpond.Base.{
  false, ℕ, zero, suc, ◌≡◌, refl, Option, none, some, List, [], ◌∷◌, arith, inl, inr, ◌⊎◌, ap, sym,
  subst, Bool-cases, Result, ok, err, if◌then◌else◌,
}
use syncpond.Base.Eq.{nat_eq, string_eq, ◌==◌, ==_iff}
use syncpond.Base.HashMap.{HashMap, get, insert, remove, get-insert, get-remove, get-insert_self}
use syncpond.Extern.Json.{Bytes}
use syncpond.Extern.Rocks.{Items, Has, IsReadable, Rocks, Lru, Serde}
use syncpond.Persistence.{BucketRecord, BucketRecords}
use syncpond.Tests.Frames.{write, read, read-write}
unfoldable pub use Serializers.{test_ids, test_texts, test_records}

abbrev pub Store : Type 0
Store = HashMap String Bytes

unfoldable pub store_get : String → Store → Result (Option Bytes) String
unfolding get
store_get k d = ok (get k d)

unfoldable pub store_put : String → Bytes → Store → Result (Unit {0}) String × Store
unfolding insert
store_put k v d = (ok tt, insert k v d)

unfoldable pub store_delete : String → Store → Result (Unit {0}) String × Store
unfolding remove
store_delete k d = (ok tt, remove k d)

with_item : String → Option Bytes → Items → Items
with_item k none rest = rest
with_item k (some w) rest = ok (some k, w) ∷ rest

-- The entries of `l`, with the values that `d` has for their keys.
store_items : Store → Store → Items
unfolding get
store_items [] d = []
store_items ((k, v) ∷ l) d = let rest = store_items l d in with_item k (get k d) rest

unfoldable pub store_iterator : Store → Items
unfolding store_items with_item
store_iterator d = store_items d d

Has-with_item :
    (k j : String) (v : Bytes) (o : Option Bytes) (rest : Items)
    → Has k v (with_item j o rest)
    → ((j ≡ k) × (o ≡ some v)) ⊎ Has k v rest
unfolding with_item
Has-with_item k j v none rest h = inr h
Has-with_item k j v (some w) rest (inl e) = inl (cc, cc)
Has-with_item k j v (some w) rest (inr h) = inr h

store_items_sound :
    (k : String) (v : Bytes) (l d : Store) → Has k v (store_items l d) → get k d ≡ some v
unfolding store_items with_item
store_items_sound k v [] d h = elim h [ ]
store_items_sound k v ((j, u) ∷ l) d h = elim (Has-with_item k j v (get j d) (store_items l d) h) [
  | inl (same, at_j) ↦ rw same at at_j
  | inr later ↦ store_items_sound k v l d later
]

with_item_self :
    (k : String) (v : Bytes) (o : Option Bytes) (rest : Items)
    → o ≡ some v
    → Has k v (with_item k o rest)
unfolding with_item
with_item_self k v none rest e = cc
with_item_self k v (some w) rest e = inl (ground arith)

with_item_later :
    (k j : String) (v : Bytes) (o : Option Bytes) (rest : Items)
    → Has k v rest
    → Has k v (with_item j o rest)
unfolding with_item
with_item_later k j v none rest h = h
with_item_later k j v (some w) rest h = inr h

store_items_complete :
    (k : String) (v u : Bytes) (l d : Store)
    → get k l ≡ some u
    → get k d ≡ some v
    → Has k v (store_items l d)
unfolding store_items get
store_items_complete k v u [] d h at_k = cc
store_items_complete k v u ((j, w) ∷ l) d h at_k = elim (Bool-cases (j == k)) [
  | inl e ↦
      let same : j ≡ k = (==_iff j k).0 e in
      subst (λ i. Has k v (with_item i (get i d) (store_items l d))) (sym same)
        (with_item_self k v (get k d) (store_items l d) at_k)
  | inr e ↦
      with_item_later k j v (get j d) (store_items l d)
        (store_items_complete k v u l d (ground arith) at_k)
]

pub store_get-put :
    (j k : String) (v : Bytes) (d d1 : Store)
    → store_put k v d ≡ (ok tt, d1)
    → store_get j d1 ≡ (if k == j then ok (some v) else store_get j d)
unfolding store_get store_put
store_get-put j k v d d1 h =
    let same : insert k v d ≡ d1 = ground arith in rw (← same) (ground (arith, get-insert k j v d))

pub store_get-delete :
    (j k : String) (d d1 : Store)
    → store_delete k d ≡ (ok tt, d1)
    → store_get j d1 ≡ (if k == j then ok none else store_get j d)
unfolding store_get store_delete
store_get-delete j k d d1 h =
    let same : remove k d ≡ d1 = ground arith in rw (← same) (ground (arith, get-remove k j d))

pub store_iterator_sound :
    (k : String) (v : Bytes) (d : Store) → Has k v (store_iterator d) → store_get k d ≡ ok (some v)
unfolding store_iterator store_get
store_iterator_sound k v d h = ap ok (store_items_sound k v d d h)

pub store_iterator_complete :
    (k : String) (v : Bytes) (d : Store)
    → IsReadable (store_iterator d)
    → store_get k d ≡ ok (some v)
    → Has k v (store_iterator d)
unfolding store_iterator store_get
store_iterator_complete k v d fine h =
    let at_k : get k d ≡ some v = ground arith in store_items_complete k v v d d at_k at_k

IsReadable-with_item :
    (k : String) (o : Option Bytes) (rest : Items)
    → IsReadable rest
    → IsReadable (with_item k o rest)
unfolding with_item
IsReadable-with_item k none rest fine = fine
IsReadable-with_item k (some w) rest fine = fine

IsReadable-store_items : (l d : Store) → IsReadable (store_items l d)
unfolding store_items
IsReadable-store_items [] d = tt
IsReadable-store_items ((k, v) ∷ l) d =
    IsReadable-with_item k (get k d) (store_items l d) (IsReadable-store_items l d)

instance unfoldable pub test_rocks : Rocks Store
unfolding store_get store_put store_delete store_iterator
test_rocks = record {
  db_get = store_get;
  db_put = store_put;
  db_delete = store_delete;
  iterator = store_iterator;
  get-put = store_get-put;
  get-delete = store_get-delete;
  iterator_sound = store_iterator_sound;
  iterator_complete = store_iterator_complete;
}

-- The iterator never fails.
pub store-IsReadable : (db : Store) → IsReadable (test_rocks.iterator db)
unfolding test_rocks store_iterator
store-IsReadable db = IsReadable-store_items db db

abbrev pub Cache : Type 0
Cache = HashMap ℕ BucketRecords

pub get-insert_other :
    (j k : ℕ) (a : BucketRecords) (c : Cache)
    → (j == k) ≡ false
    → (get j (insert k a c) ≡ get j c) ⊎ (get j (insert k a c) ≡ none)
get-insert_other j k a c h = inl (ground (arith, get-insert k j a c, ==_iff j k, ==_iff k j))

instance unfoldable pub test_lru : Lru BucketRecords Cache
unfolding get insert
test_lru = record {
  cache_get = λ k c. (get k c, c);
  cache_put = insert;
  get-get = λ j k c. refl;
  get-put_self = get-insert_self;
  get-put_other = get-insert_other;
}
