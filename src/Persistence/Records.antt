-- ===== src/Persistence/Records.antt =====
-- The record of a bucket in the store: under its key, in the list of ids, and in what is read.
use syncpond.Base.{
  ℕ, String, ◌≤◌, ◌≡◌, refl, true, false, Option, none, some, List, [], ◌∷◌, arith, ok, err,
  if◌then◌else◌, u64_max, ap, inl, inr, Bool-cases, Option-cases, Result-cases,
}
use syncpond.Base.Eq.{nat_eq, string_eq, ◌==◌, ==_iff, ==_refl}
use syncpond.Base.HashMap.{get, get-insert}
use syncpond.Base.HashSet.{contains}
use syncpond.Extern.Json.{Bytes}
use syncpond.Extern.Rocks.{Rocks, Serde, Items, Has, IsReadable}
use syncpond.Persistence.{BucketRecord, BucketRecords, bucket_key, bucket_list_key}
use syncpond.Persistence.Keys.{bucket_id_of-bucket_key, other_key, same_bucket_key}
use syncpond.Persistence.Rooms.{bucket_id_of, bucket_ids}
use syncpond.Persistence.Buckets.{record_in, listed, file_record}

contains-bucket_ids :
    (b : ℕ) (k : String) (w : Bytes) (items : Items)
    → bucket_id_of (some k) ≡ some b
    → Has k w items
    → contains b (bucket_ids items) ≡ true
unfolding bucket_ids contains
contains-bucket_ids b k w [] is_b h = elim h [ ]
contains-bucket_ids b k w (err e ∷ items) is_b (inl h) = cc
contains-bucket_ids b k w (err e ∷ items) is_b (inr h) = contains-bucket_ids b k w items is_b h
contains-bucket_ids b k w (ok (j, u) ∷ items) is_b (inl h) =
    let same : j ≡ some k = cc in
    let at_j : bucket_id_of j ≡ some b = rw same is_b in ground (arith, ==_refl b)
contains-bucket_ids b k w (ok (j, u) ∷ items) is_b (inr h) =
    let later = contains-bucket_ids b k w items is_b h in ground arith

-- A record, unless it is none, or else what was there
over : Option BucketRecord → Option BucketRecord → Option BucketRecord
over none old = old
over (some rec) old = some rec

over_twice : (o old : Option BucketRecord) → over o (over o old) ≡ over o old
unfolding over
over_twice none old = refl
over_twice (some rec) old = refl

get-file_record :
    (b j : ℕ) (o : Option BucketRecord) (out : BucketRecords)
    → get j (file_record b o out) ≡ (if b == j then over o (get j out) else get j out)
unfolding file_record over
get-file_record b j none out = ground arith
get-file_record b j (some rec) out = ground (arith, get-insert b j rec out)

module _ {D : Type 0} ⦃R : Rocks D⦄ ⦃B : Serde BucketRecord⦄ where
  get-listed-over :
      (db : D) (ids : List ℕ) (j : ℕ) (out : BucketRecords)
      → get j (listed db ids out)
        ≡ (if contains j ids then over (record_in db j) (get j out) else get j out)
  unfolding listed contains
  get-listed-over db [] j out = refl
  get-listed-over db (b ∷ ids) j out =
      let rest = get-listed-over db ids j (file_record b (record_in db b) out) in
      let first = get-file_record b j (record_in db b) out in
      let twice = over_twice (record_in db j) (get j out) in
      elim (Bool-cases (b == j)) [
        | inr differ ↦ ground arith
        | inl same ↦
            let equal : b ≡ j = (==_iff b j).0 same in ground (arith, ap (record_in db) equal)
      ]

  -- What is read of a bucket in the list is the record that the store has of it.
  pub get-listed :
      (db : D) (ids : List ℕ) (j : ℕ)
      → get j (listed db ids []) ≡ (if contains j ids then record_in db j else none)
  unfolding over get
  get-listed db ids j = ground (arith, get-listed-over db ids j [])

  pub record_in-put :
      (b j : ℕ) (rec : BucketRecord) (bytes : Bytes) (db db1 : D)
      → b ≤ u64_max
      → j ≤ u64_max
      → B.serialize rec ≡ ok bytes
      → R.db_put (bucket_key b) bytes db ≡ (ok tt, db1)
      → record_in db1 j ≡ (if b == j then some rec else record_in db j)
  unfolding record_in
  record_in-put b j rec bytes db db1 below_b below_j saved stored = ground (
    arith,
    R.get-put (bucket_key j) (bucket_key b) bytes db db1 stored,
    same_bucket_key b j below_b below_j,
    B.deserialize-serialize rec bytes saved,
  )

  pub record_in-put_list :
      (i j : ℕ) (bytes : Bytes) (db db1 : D)
      → R.db_put (bucket_list_key i) bytes db ≡ (ok tt, db1)
      → record_in db1 j ≡ record_in db j
  unfolding record_in
  record_in-put_list i j bytes db db1 stored =
      ground
        (arith, R.get-put (bucket_key j) (bucket_list_key i) bytes db db1 stored, other_key i j)

  pub record_in-delete :
      (b j : ℕ) (db db1 : D)
      → b ≤ u64_max
      → j ≤ u64_max
      → R.db_delete (bucket_key b) db ≡ (ok tt, db1)
      → record_in db1 j ≡ (if b == j then none else record_in db j)
  unfolding record_in
  record_in-delete b j db db1 below_b below_j gone = ground (
    arith,
    R.get-delete (bucket_key j) (bucket_key b) db db1 gone,
    same_bucket_key b j below_b below_j,
  )

  -- The list of ids that the iterator gives leaves no record out.
  pub record_in-unlisted :
      (db : D) (j : ℕ)
      → j ≤ u64_max
      → IsReadable (R.iterator db)
      → contains j (bucket_ids (R.iterator db)) ≡ false
      → record_in db j ≡ none
  unfolding record_in
  record_in-unlisted db j bound fine out = elim (Result-cases (R.db_get (bucket_key j) db)) [
    | inr (e, failed) ↦ ground arith
    | inl (o, got) ↦ elim (Option-cases o) [
      | inl missing ↦ ground arith
      | inr (w, there) ↦
          let at_j : R.db_get (bucket_key j) db ≡ ok (some w) = cc in
          let listed =
            contains-bucket_ids j (bucket_key j) w (R.iterator db) (bucket_id_of-bucket_key j bound)
              (R.iterator_complete (bucket_key j) w db fine at_j) in
          cc
    ]
  ]
