-- ===== src/Kernel/Stray.antt =====
-- A LoadRoom of a room that does not exist.
use syncpond.Base.{
  ℕ, String, ◌≡◌, refl, true, Option, none, some, List, [], arith, Result, ok, err, Bool-cases, inl,
  inr,
}
use syncpond.Base.Eq.{nat_eq}
use syncpond.Base.HashMap.{HashMap, contains_key, contains_key-insert}
use syncpond.Base.HashSet.{HashSet}
use syncpond.Extern.Json.{Json}
use syncpond.Extern.Rocks.{Rocks, Lru, Serde}
use syncpond.Protocol.{CommandResponse}
use syncpond.State.{room_of}
use syncpond.State.Errors.{display, room_not_found}
use syncpond.State.Rooms.{BucketDef, load_room_data}
use syncpond.Persistence.{
  BucketRecord, BucketRecords, PersistenceManager, open_room_db, get_room_db,
}
use syncpond.Persistence.Rooms.{RoomPersistence}
use syncpond.Kernel.{SyncpondKernel}
use syncpond.Kernel.Loading.{
  handle_load_room, load_found, load_from, load_opened, read_room, settle,
}
use syncpond.Upstream.Handler.{load_room_answer}

-- The response tells the caller of an error.
abbrev pub Fails : CommandResponse → Type 0
Fails response = (e : String) × (load_room_answer response ≡ err e)

module _ {D C : Type 0} (open_db : ℕ → Result D String) where
  -- The store is open afterwards, also if it was before.
  contains_key-opened :
      (i : ℕ) (db : D) (pm : PersistenceManager D C)
      → open_db i ≡ ok db
      → ((open_room_db open_db i pm).0 ≡ ok tt)
        × (contains_key i ((open_room_db open_db i pm).1).dbs ≡ true)
  unfolding open_room_db
  contains_key-opened i db pm opened = elim (Bool-cases (contains_key i pm.dbs)) [
    | inl there ↦ (rw there refl, rw there there)
    | inr new ↦ (rw (new, opened) refl, ground (arith, contains_key-insert i i db pm.dbs))
  ]

module _ {V D C : Type 0} ⦃J : Json V⦄ ⦃R : Rocks D⦄ ⦃L : Lru BucketRecords C⦄ ⦃I : Serde (List ℕ)⦄
    ⦃M : Serde (List String)⦄ ⦃B : Serde BucketRecord⦄ (open_db : ℕ → Result D String) where
  -- The response is a failure, and neither the state nor the open stores changed.
  record IsStray (k : SyncpondKernel V D C) (r : CommandResponse × SyncpondKernel V D C)
      : Type 0 where
    failed : Fails r.0
    same_state : r.1.state ≡ k.state
    same_stores : r.1.persistence.dbs ≡ k.persistence.dbs

  load_found-IsStray :
      (i : ℕ) (k : SyncpondKernel V D C)
      (r : Result (List BucketDef × HashSet String × HashMap ℕ (HashMap String V)) String)
      → room_of i k.state ≡ err room_not_found
      → IsStray k (load_found open_db i k r)
  unfolding load_found settle load_room_answer
  load_found-IsStray i k (err e) missing = record {
    failed = (e, refl);
    same_state = refl;
    same_stores = refl;
  }
  load_found-IsStray i k (ok (defs, members, fragments)) missing =
      let refused : load_room_data i defs members fragments k.state ≡ err room_not_found =
        unfold load_room_data in ground arith in
      record {
        failed = (display room_not_found, rw refused refl);
        same_state = rw refused refl;
        same_stores = rw refused refl;
      }

  load_from-IsStray :
      (i : ℕ) (k : SyncpondKernel V D C) (o : Option D)
      → room_of i k.state ≡ err room_not_found
      → IsStray k (load_from open_db i k o)
  unfolding load_from
  load_from-IsStray i k none missing = load_found-IsStray i k (ok ([], [], [])) missing
  load_from-IsStray i k (some db) missing =
      let s : RoomPersistence D C = record { db = db; bucket_cache = k.persistence.bucket_cache } in
      let got = read_room {V = V} open_db i s in
      let pm : PersistenceManager D C = record k.persistence {
        bucket_cache = got.1.bucket_cache;
      } in
      let stray = load_found-IsStray i (record k { persistence = pm }) got.0 missing in
      record {
        failed = stray.failed;
        same_state = stray.same_state;
        same_stores = stray.same_stores;
      }

  -- A LoadRoom of a room that does not exist, whose store can be made, fails and leaves the state
  -- as it was; but the store has been made, and is open.
  pub load_room-stray :
      (i : ℕ) (db : D) (k : SyncpondKernel V D C)
      → room_of i k.state ≡ err room_not_found
      → open_db i ≡ ok db
      → let r = handle_load_room open_db i k in
        Fails r.0 × (r.1.state ≡ k.state) × (contains_key i r.1.persistence.dbs ≡ true)
  unfolding handle_load_room load_opened
  load_room-stray i db k missing opened =
      let made = contains_key-opened open_db i db k.persistence opened in
      let k1 : SyncpondKernel V D C = record k {
        persistence = (open_room_db open_db i k.persistence).1;
      } in
      let stray = load_from-IsStray i k1 (get_room_db i k1.persistence) missing in
      rw made.0 (stray.failed, stray.same_state, rw stray.same_stores made.1)
