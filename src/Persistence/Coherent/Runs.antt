-- ===== src/Persistence/Coherent/Runs.antt =====
-- Sequences of `persist_bucket` and `remove_bucket`, and what `load_buckets` then reads;
-- server/crates/sp-kernel/src/persistance/mod.rs.
use syncpond.Base.{
  ℕ, ◌≤◌, String, ◌≡◌, ◌∙◌, ap, subst, Option, none, some, List, [], ◌∷◌, ok, if◌then◌else◌,
  u64_max,
}
use syncpond.Base.Eq.{nat_eq, ◌==◌}
use syncpond.Base.HashMap.{get}
use syncpond.Extern.Rocks.{Rocks, Lru, Serde, IsReadable}
use syncpond.Persistence.{BucketRecord, BucketRecords}
use syncpond.Persistence.Rooms.{RoomPersistence, Action, ◌>>◌, pure}
use syncpond.Persistence.Buckets.{record_in, persist_bucket, remove_bucket, load_buckets}
use syncpond.Persistence.Cached.{>>=-eq_ok}
use syncpond.Persistence.Coherent.{
  IsCoherent, Keeps, persist_bucket-Keeps, remove_bucket-Keeps, load_buckets-AreStored,
}

-- A change of a bucket record.
pub data BucketCall : Type 0 where
  persisted : (bucket_id : ℕ) (label : Option String) (flags : ℕ) → BucketCall
  removed : (bucket_id : ℕ) → BucketCall

abbrev called_id : BucketCall → ℕ
called_id (persisted bucket_id label flags) = bucket_id
called_id (removed bucket_id) = bucket_id

-- The ids are u64.
abbrev pub AllFit : List BucketCall → Type 0
AllFit [] = Unit {0}
AllFit (call ∷ calls) = (called_id call ≤ u64_max) × AllFit calls

-- What becomes of the record of bucket `j`.
abbrev called : BucketCall → (j : ℕ) → Option BucketRecord → Option BucketRecord
called (persisted bucket_id label flags) j o =
    if bucket_id == j then some (record { id = bucket_id; label = label; flags = flags }) else o
called (removed bucket_id) j o = if bucket_id == j then none else o

abbrev pub all_called : List BucketCall → (j : ℕ) → Option BucketRecord → Option BucketRecord
all_called [] j o = o
all_called (call ∷ calls) j o = all_called calls j (called call j o)

module _ {D C : Type 0} ⦃R : Rocks D⦄ ⦃L : Lru BucketRecords C⦄ ⦃I : Serde (List ℕ)⦄
    ⦃B : Serde BucketRecord⦄ (i : ℕ) where
  abbrev do_call : BucketCall → Action D C (Unit {0})
  do_call (persisted bucket_id label flags) = persist_bucket i bucket_id label flags
  do_call (removed bucket_id) = remove_bucket i bucket_id

  abbrev pub do_calls : List BucketCall → Action D C (Unit {0})
  do_calls [] = pure tt
  do_calls (call ∷ calls) = do_call call >> do_calls calls

  module _ (fine : (db : D) → IsReadable (R.iterator db)) where
    do_call-Keeps :
        (call : BucketCall) (s s1 : RoomPersistence D C)
        → called_id call ≤ u64_max
        → IsCoherent i s
        → do_call call s ≡ (ok tt, s1)
        → Keeps i (λ j. called call j (record_in s.db j)) s1
    do_call-Keeps (persisted b label flags) s s1 bound coherent h =
        persist_bucket-Keeps i b label flags s s1 fine bound coherent h
    do_call-Keeps (removed b) s s1 bound coherent h =
        remove_bucket-Keeps i b s s1 fine bound coherent h

    do_calls-Keeps :
        (calls : List BucketCall) (new : ℕ → Option BucketRecord) (s s1 : RoomPersistence D C)
        → AllFit calls
        → Keeps i new s
        → do_calls calls s ≡ (ok tt, s1)
        → Keeps i (λ j. all_called calls j (new j)) s1
    do_calls-Keeps [] new s s1 fit keeps h = subst (Keeps i new) (ap (λ r. r.1) h) keeps
    do_calls-Keeps (call ∷ calls) new s s1 (bound, fit) keeps h =
        let (done, t, first, rest) = >>=-eq_ok (do_call call) (λ done. do_calls calls) tt s s1 h in
        let next = do_call-Keeps call s t bound keeps.coherent first in
        do_calls-Keeps calls (λ j. called call j (new j)) t s1 fit
          (record {
            coherent = next.coherent;
            in_list = next.in_list;
            stored = λ j below. next.stored j below ∙ ap (called call j) (keeps.stored j below);
          })
          rest

  -- Where the iterator of a store never fails, and the cached records of the room, if there are
  -- any, are those of its store: after any sequence of at least one change of bucket records with
  -- ids that are u64, all of which succeed, the records can be loaded, and they are those that the
  -- changes, made one after the other, leave of the records that the store had before.
  pub load_buckets-do_calls :
      (call : BucketCall) (calls : List BucketCall) (s s1 : RoomPersistence D C)
      → ((db : D) → IsReadable (R.iterator db))
      → AllFit (call ∷ calls)
      → IsCoherent i s
      → do_calls (call ∷ calls) s ≡ (ok tt, s1)
      → (recs : BucketRecords) × ((load_buckets i s1).0 ≡ ok recs)
        × ((j : ℕ) → j ≤ u64_max → get j recs ≡ all_called (call ∷ calls) j (record_in s.db j))
  load_buckets-do_calls call calls s s1 fine (bound, fit) coherent h =
      let (done, t, first, rest) = >>=-eq_ok (do_call call) (λ done. do_calls calls) tt s s1 h in
      let next = do_call-Keeps fine call s t bound coherent first in
      let ends = do_calls-Keeps fine calls _ t s1 fit next rest in
      let (recs, loaded, are_stored) = load_buckets-AreStored i s1 ends.coherent ends.in_list in
      (recs, loaded, λ j below. are_stored j below ∙ ends.stored j below)
