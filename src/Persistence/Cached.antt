-- ===== src/Persistence/Cached.antt =====
-- What a change of a bucket record leaves in the store, in the list of ids and in the cache;
-- `persist_bucket` and `remove_bucket` of server/crates/sp-kernel/src/persistance/mod.rs.
use syncpond.Base.{
  ℕ, String, ◌≡◌, ap, sym, ◌∙◌, none, some, List, arith, Result, ok, err, Result-cases,
  Option-cases, inl, inr,
}
use syncpond.Base.Eq.{nat_eq, string_eq, ==_refl}
use syncpond.Base.Sort.{sort_unstable}
use syncpond.Extern.Json.{Bytes}
use syncpond.Extern.Rocks.{Rocks, Lru, Serde}
use syncpond.Persistence.{BucketRecord, BucketRecords, bucket_list_key}
use syncpond.Persistence.Members.{put-eq-ok}
use syncpond.Persistence.Rooms.{RoomPersistence, Action, ◌>>=◌, or_fail, put, delete, bucket_ids}
use syncpond.Persistence.Buckets.{
  record_in, id_list, collect_bucket_ids, cache_get_buckets, cache_put_buckets, update_bucket_list,
  update_cached,
}
use syncpond.Persistence.Records.{record_in-put_list}

module _ {D C : Type 0} where
  -- Both halves of a sequence that succeeded have succeeded.
  pub >>=-eq_ok :
      {A B : Type 0} (m : Action D C A) (f : A → Action D C B) (b : B) (s s2 : RoomPersistence D C)
      → (m >>= f) s ≡ (ok b, s2)
      → (a : A) × (s1 : RoomPersistence D C) × (m s ≡ (ok a, s1)) × (f a s1 ≡ (ok b, s2))
  >>=-eq_ok m f b s s2 h = elim (Result-cases (m s).0) [
    | inr (e, failed) ↦ ground arith
    | inl (a, done) ↦ (a, (m s).1, ground arith, ground arith)
  ]

  pub or_fail-eq_ok :
      {A : Type 0} (what : String) (r : Result A String) (a : A) (s s1 : RoomPersistence D C)
      → or_fail what r s ≡ (ok a, s1)
      → (r ≡ ok a) × (s ≡ s1)
  or_fail-eq_ok what (ok c) a s s1 h = (ground arith, ground arith)
  or_fail-eq_ok what (err e) a s s1 h = ground arith

  put-cache :
      ⦃R : Rocks D⦄ (key : String) (bytes : Bytes) (s : RoomPersistence D C)
      → (put key bytes s).1.bucket_cache ≡ s.bucket_cache
  unfolding put
  put-cache ⦃R = R⦄ key bytes s = elim (Result-cases (R.db_put key bytes s.db).0) [
    | inl (done, wrote) ↦ ground arith
    | inr (e, failed) ↦ ground arith
  ]

module _ {D C : Type 0} ⦃R : Rocks D⦄ (key : String) (s s1 : RoomPersistence D C) where
  pub put-eq_ok :
      (bytes : Bytes)
      → put key bytes s ≡ (ok tt, s1)
      → (R.db_put key bytes s.db ≡ (ok tt, s1.db)) × (s1.bucket_cache ≡ s.bucket_cache)
  put-eq_ok bytes h =
      let ends = ap (λ (r : Result (Unit {0}) String × RoomPersistence D C). r.1.bucket_cache) h in
      (put-eq-ok key bytes s s1 h, sym ends ∙ put-cache key bytes s)

  pub delete-eq_ok :
      delete key s ≡ (ok tt, s1)
      → (R.db_delete key s.db ≡ (ok tt, s1.db)) × (s1.bucket_cache ≡ s.bucket_cache)
  unfolding delete
  delete-eq_ok h = elim (Result-cases (R.db_delete key s.db).0) [
    | inl (done, gone) ↦ (ground arith, ground arith)
    | inr (e, failed) ↦ (ground arith, ground arith)
  ]

module _ {D C : Type 0} ⦃R : Rocks D⦄ ⦃L : Lru BucketRecords C⦄ ⦃I : Serde (List ℕ)⦄
    ⦃B : Serde BucketRecord⦄ (i : ℕ) where
  pub update_bucket_list-eq_ok :
      (s s1 : RoomPersistence D C)
      → update_bucket_list i s ≡ (ok tt, s1)
      → (id_list i s1.db ≡ some (sort_unstable (bucket_ids (R.iterator s.db))))
        × ((j : ℕ) → record_in s1.db j ≡ record_in s.db j)
        × (s1.bucket_cache ≡ s.bucket_cache)
  unfolding update_bucket_list collect_bucket_ids id_list
  update_bucket_list-eq_ok s s1 h =
      let ids = sort_unstable (bucket_ids (R.iterator s.db)) in
      let key = bucket_list_key i in
      elim (Result-cases (I.serialize ids)) [
        | inr (e, failed) ↦ ground arith
        | inl (bytes, saved) ↦
            let puts : put key bytes s ≡ (ok tt, s1) = ground arith in
            let (wrote, kept) = put-eq_ok key s s1 bytes puts in
            let read = R.get-put key key bytes s.db s1.db wrote in
            (
              ground (arith, ==_refl key, I.deserialize-serialize ids bytes saved),
              λ j. record_in-put_list i j bytes s.db s1.db wrote,
              kept,
            )
      ]

  -- The cached records are changed, if there are any.
  update_cached-get :
      (change : BucketRecords → BucketRecords) (s : RoomPersistence D C)
      → let s1 = ((cache_get_buckets i >>= update_cached i change) s).1 in
        (s1.db ≡ s.db)
        × ((L.cache_get i s1.bucket_cache).0 ≡ (elim (L.cache_get i s.bucket_cache).0 [
          | none ↦ none
          | some recs ↦ some (change recs)
        ]))
  unfolding cache_get_buckets update_cached cache_put_buckets
  update_cached-get change s = elim (Option-cases (L.cache_get i s.bucket_cache).0) [
    | inl none_there ↦ ground (arith, L.get-get i i s.bucket_cache)
    | inr (recs, there) ↦
        ground (arith, L.get-put_self i (change recs) (L.cache_get i s.bucket_cache).1)
  ]

  pub update_cached-eq_ok :
      (change : BucketRecords → BucketRecords) (s s1 : RoomPersistence D C)
      → (cache_get_buckets i >>= update_cached i change) s ≡ (ok tt, s1)
      → (s1.db ≡ s.db)
        × ((L.cache_get i s1.bucket_cache).0 ≡ (elim (L.cache_get i s.bucket_cache).0 [
          | none ↦ none
          | some recs ↦ some (change recs)
        ]))
  update_cached-eq_ok change s s1 h =
      let ends : ((cache_get_buckets i >>= update_cached i change) s).1 ≡ s1 = ap (λ r. r.1) h in
      rw (← ends) (update_cached-get change s)
