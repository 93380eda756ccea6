-- ===== src/Tests/Stores/Serializers.antt =====
-- The serializers that the tests use; that of texts takes a list of at most one.
use Prim.Native.String.{String}
use syncpond.Base.{
  ℕ, zero, suc, ◌≡◌, refl, Option, none, some, List, [], ◌∷◌, arith, Result, ok, err,
}
use syncpond.Base.Eq.{nat_eq, string_eq}
use syncpond.Extern.Json.{Bytes}
use syncpond.Extern.Rocks.{Serde}
use syncpond.Persistence.{BucketRecord}
use syncpond.Tests.Frames.{write, read, read-write}

abbrev pub ids_out : List ℕ → Result Bytes String
ids_out = ok

abbrev pub ids_in : Bytes → Result (List ℕ) String
ids_in = ok

pub ids-in_out : (l : List ℕ) (bytes : Bytes) → ids_out l ≡ ok bytes → ids_in bytes ≡ ok l
ids-in_out l bytes h = ground arith

instance unfoldable pub test_ids : Serde (List ℕ)
test_ids = record { serialize = ids_out; deserialize = ids_in; deserialize-serialize = ids-in_out }

unfoldable pub texts_out : List String → Result Bytes String
unfolding write
texts_out [] = ok (0 ∷ [])
texts_out (s ∷ []) = ok (1 ∷ write s [])
texts_out (s ∷ t ∷ l) = err "too many texts"

unfoldable pub texts_in : Bytes → Result (List String) String
unfolding read
texts_in [] = err "no texts"
texts_in (zero ∷ rest) = ok []
texts_in (suc n ∷ rest) = ok ((read rest).0 ∷ [])

pub texts-in_out :
    (l : List String) (bytes : Bytes) → texts_out l ≡ ok bytes → texts_in bytes ≡ ok l
unfolding texts_in texts_out
texts-in_out [] bytes h = ground arith
texts-in_out (s ∷ []) bytes h = ground (arith, read-write s [])
texts-in_out (s ∷ t ∷ l) bytes h = ground arith

instance unfoldable pub test_texts : Serde (List String)
unfolding texts_in texts_out
test_texts = record {
  serialize = texts_out;
  deserialize = texts_in;
  deserialize-serialize = texts-in_out;
}

unfoldable pub label_out : Option String → Bytes
unfolding write
label_out none = 0 ∷ []
label_out (some label) = 1 ∷ write label []

unfoldable pub label_in : Bytes → Option String
unfolding read
label_in [] = none
label_in (zero ∷ rest) = none
label_in (suc n ∷ rest) = some (read rest).0

label-in_out : (label : Option String) → label_in (label_out label) ≡ label
unfolding label_in label_out
label-in_out none = refl
label-in_out (some label) = rw (read-write label []) refl

unfoldable pub record_out : BucketRecord → Result Bytes String
unfolding label_out
record_out r = ok (r.id ∷ r.flags ∷ label_out r.label)

unfoldable pub record_in : Bytes → Result BucketRecord String
unfolding label_in
record_in [] = err "no id"
record_in (id ∷ []) = err "no flags"
record_in (id ∷ flags ∷ rest) = ok (record { id = id; label = label_in rest; flags = flags })

pub record-in_out :
    (r : BucketRecord) (bytes : Bytes) → record_out r ≡ ok bytes → record_in bytes ≡ ok r
unfolding record_in record_out
record-in_out r bytes h =
    let same : (r.id ∷ r.flags ∷ label_out r.label) ≡ bytes = ground arith in
    rw (← same) (rw (label-in_out r.label) refl)

instance unfoldable pub test_records : Serde BucketRecord
unfolding record_in record_out
test_records = record {
  serialize = record_out;
  deserialize = record_in;
  deserialize-serialize = record-in_out;
}
