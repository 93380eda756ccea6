-- ===== src/Persistence/Buckets.antt =====
-- The bucket records of a room, in the store and in the cache;
-- server/crates/sp-kernel/src/persistance/mod.rs.
use syncpond.Base.{ℕ, String, Option, none, some, List, [], ◌∷◌, Result, ok, err}
use syncpond.Base.Eq.{nat_eq}
use syncpond.Base.HashMap.{insert, remove}
use syncpond.Base.Sort.{sort_unstable}
use syncpond.Extern.Json.{Bytes}
use syncpond.Extern.Rocks.{Rocks, Lru, Serde}
use syncpond.Persistence.{BucketRecord, BucketRecords, bucket_key, bucket_list_key}
use syncpond.Persistence.Rooms.{
  RoomPersistence, Action, ◌>>=◌, ◌>>◌, pure, or_fail, put, delete, bucket_id_of, bucket_ids,
}

unfoldable pub file_record : ℕ → Option BucketRecord → BucketRecords → BucketRecords
unfolding insert
file_record id none out = out
file_record id (some rec) out = insert id rec out

module _ ⦃B : Serde BucketRecord⦄ where
  -- The records that a scan of the store finds
  scanned : List (Result (Option String × Bytes) String) → BucketRecords → BucketRecords
  unfolding bucket_id_of insert
  scanned [] out = out
  scanned (err e ∷ items) out = scanned items out
  scanned (ok (k, v) ∷ items) out = scanned items (elim (bucket_id_of k) [
    | none ↦ out
    | some id ↦ elim (B.deserialize v) [ err e ↦ out | ok rec ↦ insert id rec out ]
  ])

module _ {D : Type 0} ⦃R : Rocks D⦄ ⦃B : Serde BucketRecord⦄ where
  -- The record that the store has of a bucket; an error counts as none.
  unfoldable pub record_in : D → ℕ → Option BucketRecord
  unfolding bucket_key
  record_in db id = elim (R.db_get (bucket_key id) db) [
    | err e ↦ none
    | ok none ↦ none
    | ok (some bytes) ↦ elim (B.deserialize bytes) [ err e ↦ none | ok rec ↦ some rec ]
  ]

  -- The records of the buckets in the list of bucket ids
  unfoldable pub listed : D → List ℕ → BucketRecords → BucketRecords
  unfolding file_record record_in
  listed db [] out = out
  listed db (id ∷ ids) out = listed db ids (file_record id (record_in db id) out)

module _ {D : Type 0} ⦃R : Rocks D⦄ ⦃I : Serde (List ℕ)⦄ (room_id : ℕ) where
  -- The list of bucket ids, where the store has one that can be read
  unfoldable pub id_list : D → Option (List ℕ)
  unfolding bucket_list_key
  id_list db = elim (R.db_get (bucket_list_key room_id) db) [
    | err e ↦ none
    | ok none ↦ none
    | ok (some v) ↦ elim (I.deserialize v) [ err e ↦ none | ok ids ↦ some ids ]
  ]

module _ {D C : Type 0} ⦃R : Rocks D⦄ ⦃L : Lru BucketRecords C⦄ ⦃I : Serde (List ℕ)⦄
    ⦃B : Serde BucketRecord⦄ (room_id : ℕ) where
  unfoldable pub collect_bucket_ids : Action D C (List ℕ)
  unfolding sort_unstable bucket_ids
  collect_bucket_ids s = (ok (sort_unstable (bucket_ids (R.iterator s.db))), s)

  unfoldable pub cache_get_buckets : Action D C (Option BucketRecords)
  cache_get_buckets s =
      let r = L.cache_get room_id s.bucket_cache in (ok r.0, record s { bucket_cache = r.1 })

  unfoldable pub cache_put_buckets : BucketRecords → Action D C (Unit {0})
  cache_put_buckets buckets s =
      (ok tt, record s { bucket_cache = L.cache_put room_id buckets s.bucket_cache })

  unfoldable pub update_bucket_list : Action D C (Unit {0})
  unfolding collect_bucket_ids put bucket_list_key
  update_bucket_list = do
    ids ← collect_bucket_ids
    bytes ← or_fail "serialize error: " (I.serialize ids)
    put (bucket_list_key room_id) bytes

  -- The cached records, if there are any, are changed as those of the store.
  unfoldable pub update_cached :
      (BucketRecords → BucketRecords) → Option BucketRecords → Action D C (Unit {0})
  unfolding cache_put_buckets
  update_cached change none = pure tt
  update_cached change (some buckets) = cache_put_buckets (change buckets)

  unfoldable pub persist_bucket :
      (bucket_id : ℕ) (label : Option String) (flags : ℕ) → Action D C (Unit {0})
  unfolding put bucket_key update_bucket_list cache_get_buckets update_cached insert
  persist_bucket bucket_id label flags = do
    let rec : BucketRecord = record { id = bucket_id; label = label; flags = flags }
    bytes ← or_fail "serialize error: " (B.serialize rec)
    put (bucket_key bucket_id) bytes
    update_bucket_list
    entry ← cache_get_buckets
    update_cached (insert bucket_id rec) entry

  unfoldable pub remove_bucket : (bucket_id : ℕ) → Action D C (Unit {0})
  unfolding delete bucket_key update_bucket_list cache_get_buckets update_cached remove
  remove_bucket bucket_id = do
    delete (bucket_key bucket_id)
    update_bucket_list
    entry ← cache_get_buckets
    update_cached (remove bucket_id) entry

  unfoldable pub read_buckets :
      RoomPersistence D C → Result BucketRecords String × RoomPersistence D C
  unfolding id_list listed scanned cache_put_buckets
  read_buckets s = elim (id_list room_id s.db) [
    | some ids ↦ let out = listed s.db ids [] in (cache_put_buckets out >> pure out) s
    | none ↦
        let out = scanned (R.iterator s.db) [] in
        (cache_put_buckets out >> (cache_put_buckets out >> pure out)) s
  ]

  unfoldable pub or_read : Option BucketRecords → Action D C BucketRecords
  unfolding read_buckets
  or_read (some buckets) = pure buckets
  or_read none = read_buckets

  unfoldable pub load_buckets : Action D C BucketRecords
  unfolding cache_get_buckets or_read
  load_buckets = cache_get_buckets >>= or_read
