-- ===== src/Persistence/Coherent.antt =====
-- The cache of bucket records agrees with the store; server/crates/sp-kernel/src/persistance/mod.rs.
pub mod Runs
use syncpond.Base.{
  ℕ, ◌≤◌, String, ◌≡◌, ◌∙◌, sym, subst, ap, refl, true, false, Option, none, some, List, [], ◌∷◌,
  arith, Result, ok, err, if◌then◌else◌, u64_max, Result-cases, Option-cases, Bool-cases, inl, inr,
}
use syncpond.Base.Eq.{nat_eq, string_eq, ◌==◌, ==_refl}
use syncpond.Base.HashMap.{get, insert, remove, get-insert, get-remove}
use syncpond.Base.HashSet.{contains}
use syncpond.Base.Sort.{sort_unstable}
use syncpond.Base.Sort.Order.{contains-sort_unstable}
use syncpond.Extern.Json.{Bytes}
use syncpond.Extern.Rocks.{Rocks, Lru, Serde, IsReadable}
use syncpond.Persistence.{BucketRecord, BucketRecords, bucket_key}
use syncpond.Persistence.Rooms.{
  RoomPersistence, Action, ◌>>=◌, ◌>>◌, pure, or_fail, put, delete, bucket_ids,
}
use syncpond.Persistence.Buckets.{
  record_in, listed, id_list, cache_get_buckets, cache_put_buckets, update_bucket_list,
  update_cached, persist_bucket, remove_bucket, load_buckets, or_read, read_buckets,
}
use syncpond.Persistence.Cached.{
  >>=-eq_ok, or_fail-eq_ok, put-eq_ok, delete-eq_ok, update_bucket_list-eq_ok, update_cached-eq_ok,
}
use syncpond.Persistence.Records.{get-listed, record_in-put, record_in-delete, record_in-unlisted}

module _ {D C : Type 0} ⦃R : Rocks D⦄ ⦃L : Lru BucketRecords C⦄ ⦃I : Serde (List ℕ)⦄
    ⦃B : Serde BucketRecord⦄ (i : ℕ) where
  -- The records are those that the store has.
  abbrev pub AreStored : RoomPersistence D C → BucketRecords → Type 0
  AreStored s recs = (j : ℕ) → j ≤ u64_max → get j recs ≡ record_in s.db j

  -- The cached records, if there are any, are those of the store.
  abbrev pub IsCoherent : RoomPersistence D C → Type 0
  IsCoherent s =
      (recs : BucketRecords) → (L.cache_get i s.bucket_cache).0 ≡ some recs → AreStored s recs

  -- The store has a list of the ids of all its records.
  abbrev pub IsListed : RoomPersistence D C → Type 0
  IsListed s =
      (ids : List ℕ) × (id_list i s.db ≡ some ids)
      × ((j : ℕ) → j ≤ u64_max → contains j ids ≡ false → record_in s.db j ≡ none)

  -- What is read is what the store has.
  pub load_buckets-AreStored :
      (s : RoomPersistence D C)
      → IsCoherent s
      → IsListed s
      → (recs : BucketRecords) × ((load_buckets i s).0 ≡ ok recs) × AreStored s recs
  unfolding load_buckets cache_get_buckets or_read read_buckets cache_put_buckets
  load_buckets-AreStored s coherent (ids, at_list, complete) =
      elim (Option-cases (L.cache_get i s.bucket_cache).0) [
        | inr (recs, there) ↦ (recs, ground arith, coherent recs there)
        | inl missing ↦
            let out = listed s.db ids [] in
            (
              out,
              ground arith,
              λ j bound. elim (Bool-cases (contains j ids)) [
                | inl there ↦ ground (arith, get-listed s.db ids j)
                | inr absent ↦ ground (arith, get-listed s.db ids j, complete j bound absent)
              ],
            )
      ]

  -- The change of the cached records is that of the store.
  abbrev Follows : (BucketRecords → BucketRecords) → (s s1 : RoomPersistence D C) → Type 0
  Follows change s s1 = (recs : BucketRecords) → AreStored s recs → AreStored s1 (change recs)

  -- The end of `persist_bucket` and of `remove_bucket`
  finish_change :
      (change : BucketRecords → BucketRecords) (s s1 s2 : RoomPersistence D C)
      → IsReadable (R.iterator s1.db)
      → IsCoherent s
      → Follows change s s1
      → s1.bucket_cache ≡ s.bucket_cache
      → (update_bucket_list i >> (cache_get_buckets i >>= update_cached i change)) s1 ≡ (ok tt, s2)
      → IsCoherent s2 × IsListed s2 × ((j : ℕ) → record_in s2.db j ≡ record_in s1.db j)
  finish_change change s s1 s2 fine coherent follows kept h =
      let (done, t, lists, caches) =
        >>=-eq_ok (update_bucket_list i) (λ x. cache_get_buckets i >>= update_cached i change) tt s1
          s2 h in
      let (at_list, same, cache) = update_bucket_list-eq_ok i s1 t lists in
      let (db, cached) = update_cached-eq_ok i change t s2 caches in
      let records : (j : ℕ) → record_in s2.db j ≡ record_in s1.db j =
        λ j. ap (λ d. record_in d j) db ∙ same j in
      let ids = sort_unstable (bucket_ids (R.iterator s1.db)) in
      (
        λ recs there j bound. elim (Option-cases (L.cache_get i s.bucket_cache).0) [
          | inl missing ↦ ground arith
          | inr (old, at_old) ↦
              let is_changed : change old ≡ recs = ground arith in
              rw (← is_changed) (follows old (coherent old at_old) j bound ∙ sym (records j))
        ],
        (
          ids,
          rw db at_list,
          λ j bound absent.
              records j
              ∙ record_in-unlisted s1.db j bound fine
                  (sym (contains-sort_unstable j (bucket_ids (R.iterator s1.db))) ∙ absent),
        ),
        records,
      )

  -- What a call does to the records of the store, where it succeeds
  pub record Keeps (new : ℕ → Option BucketRecord) (s2 : RoomPersistence D C) : Type 0 where
    pub coherent : IsCoherent s2
    pub in_list : IsListed s2
    pub stored : (j : ℕ) → j ≤ u64_max → record_in s2.db j ≡ new j

  finish-Keeps :
      (change : BucketRecords → BucketRecords) (new : ℕ → Option BucketRecord)
      (s s1 s2 : RoomPersistence D C)
      → ((db : D) → IsReadable (R.iterator db))
      → IsCoherent s
      → s1.bucket_cache ≡ s.bucket_cache
      → ((j : ℕ) → j ≤ u64_max → record_in s1.db j ≡ new j)
      → ((recs : BucketRecords) (j : ℕ)
          → get j recs ≡ record_in s.db j
          → get j (change recs) ≡ new j)
      → (update_bucket_list i >> (cache_get_buckets i >>= update_cached i change)) s1 ≡ (ok tt, s2)
      → Keeps new s2
  finish-Keeps change new s s1 s2 fine coherent kept changed follows h =
      let (coherent', in_list', same) =
        finish_change change s s1 s2 (fine s1.db) coherent
          (λ recs stored j bound. follows recs j (stored j bound) ∙ sym (changed j bound)) kept h in
      record {
        coherent = coherent';
        in_list = in_list';
        stored = λ j bound. same j ∙ changed j bound;
      }

  pub persist_bucket-Keeps :
      (b : ℕ) (label : Option String) (flags : ℕ) (s s2 : RoomPersistence D C)
      → ((db : D) → IsReadable (R.iterator db))
      → b ≤ u64_max
      → IsCoherent s
      → persist_bucket i b label flags s ≡ (ok tt, s2)
      → Keeps
          (λ j.
            if b == j
            then some (record { id = b; label = label; flags = flags })
            else record_in s.db j)
          s2
  unfolding persist_bucket
  persist_bucket-Keeps b label flags s s2 fine bound coherent h =
      let rec : BucketRecord = record { id = b; label = label; flags = flags } in
      let key = bucket_key b in
      let end : Action D C (Unit {0}) =
        update_bucket_list i >> (cache_get_buckets i >>= update_cached i (insert b rec)) in
      let (bytes, t, saves, rest) =
        >>=-eq_ok (or_fail "serialize error: " (B.serialize rec)) (λ bytes. put key bytes >> end) tt
          s s2 h in
      let (saved, same) = or_fail-eq_ok "serialize error: " (B.serialize rec) bytes s t saves in
      let (done, s1, puts, last) = >>=-eq_ok (put key bytes) (λ done. end) tt t s2 rest in
      let (wrote, kept) = put-eq_ok key t s1 bytes puts in
      let wrote_s =
        subst (λ (u : RoomPersistence D C). R.db_put key bytes u.db ≡ (ok tt, s1.db)) (sym same)
          wrote in
      finish-Keeps (insert b rec) _ s s1 s2 fine coherent
        (kept ∙ sym (ap (λ (u : RoomPersistence D C). u.bucket_cache) same))
        (λ j below. record_in-put b j rec bytes s.db s1.db bound below saved wrote_s)
        (λ recs j before. ground (arith, get-insert b j rec recs)) last

  pub remove_bucket-Keeps :
      (b : ℕ) (s s2 : RoomPersistence D C)
      → ((db : D) → IsReadable (R.iterator db))
      → b ≤ u64_max
      → IsCoherent s
      → remove_bucket i b s ≡ (ok tt, s2)
      → Keeps (λ j. if b == j then none else record_in s.db j) s2
  unfolding remove_bucket
  remove_bucket-Keeps b s s2 fine bound coherent h =
      let end : Action D C (Unit {0}) =
        update_bucket_list i >> (cache_get_buckets i >>= update_cached i (remove b)) in
      let (done, s1, gone, last) = >>=-eq_ok (delete (bucket_key b)) (λ done. end) tt s s2 h in
      let (deleted, kept) = delete-eq_ok (bucket_key b) s s1 gone in
      finish-Keeps (remove b) _ s s1 s2 fine coherent kept
        (λ j below. record_in-delete b j s.db s1.db bound below deleted)
        (λ recs j before. ground (arith, get-remove b j recs)) last
