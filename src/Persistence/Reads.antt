-- ===== src/Persistence/Reads.antt =====
-- The methods of `RoomPersistence` that only read leave the store as it was;
-- server/crates/sp-kernel/src/persistance/mod.rs.
use syncpond.Base.{
  ℕ, String, ◌≡◌, refl, Option, none, some, List, Result, ok, err, Result-cases, inl, inr, arith,
}
use syncpond.Extern.Json.{Bytes}
use syncpond.Extern.Rocks.{Rocks, Lru, Serde}
use syncpond.Persistence.{BucketRecord, BucketRecords, member_list_key}
use syncpond.Persistence.Rooms.{
  RoomPersistence, Action, ◌>>=◌, or_fail, read, decode_members, load_members,
}
use syncpond.Persistence.Buckets.{read_buckets, or_read, load_buckets}

module _ {D C : Type 0} where
  or_fail-same :
      {A : Type 0} (what : String) (r : Result A String) (s : RoomPersistence D C)
      → (or_fail what r s).1 ≡ s
  or_fail-same what (ok a) s = refl
  or_fail-same what (err e) s = refl

  >>=-same :
      {A B : Type 0} (m : Action D C A) (f : A → Action D C B) (s : RoomPersistence D C)
      → (m s).1 ≡ s
      → ((a : A) → (f a s).1 ≡ s)
      → ((m >>= f) s).1 ≡ s
  >>=-same m f s h g = elim (Result-cases (m s).0) [
    | inr (e, failed) ↦ ground arith
    | inl (a, done) ↦ let ends : (f a s).1 ≡ s = g a in ground arith
  ]

  module _ ⦃R : Rocks D⦄ ⦃M : Serde (List String)⦄ (i : ℕ) where
    decode_members-same :
        (o : Option Bytes) (s : RoomPersistence D C) → (decode_members i o s).1 ≡ s
    unfolding decode_members
    decode_members-same none s = refl
    decode_members-same (some v) s = elim (Result-cases (M.deserialize v)) [
      | inl (list, read) ↦ rw read refl
      | inr (e, failed) ↦ rw failed refl
    ]

    pub load_members-same : (s : RoomPersistence D C) → (load_members i s).1 ≡ s
    unfolding load_members read
    load_members-same s =
        >>=-same (read (member_list_key i)) (decode_members i) s
          (or_fail-same "rocksdb get failed: " (R.db_get (member_list_key i) s.db) s)
          (λ o. decode_members-same o s)

  module _ ⦃R : Rocks D⦄ ⦃L : Lru BucketRecords C⦄ ⦃I : Serde (List ℕ)⦄ ⦃B : Serde BucketRecord⦄
      (i : ℕ) where
    or_read-db : (o : Option BucketRecords) (s : RoomPersistence D C) → (or_read i o s).1.db ≡ s.db
    unfolding or_read read_buckets
    or_read-db (some buckets) s = refl
    or_read-db none s = ground arith

    pub load_buckets-db : (s : RoomPersistence D C) → (load_buckets i s).1.db ≡ s.db
    unfolding load_buckets
    load_buckets-db s =
        or_read-db (L.cache_get i s.bucket_cache).0
          (record s { bucket_cache = (L.cache_get i s.bucket_cache).1 })
