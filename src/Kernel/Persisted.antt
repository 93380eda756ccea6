-- ===== src/Kernel/Persisted.antt =====
-- What a WriteFragment command leaves in the store of its room.
use syncpond.Base.{ℕ, ◌≤◌, String, ◌≡◌, true, false, some, arith, Result, ok, u64_max}
use syncpond.Base.Eq.{nat_eq, string_eq, ==_refl}
use syncpond.Base.HashMap.{get, contains_key, get-insert_self}
use syncpond.Base.Text.Decimal.{to_string}
use syncpond.Extern.Json.{Json, Bytes}
use syncpond.Extern.Rocks.{Rocks}
use syncpond.State.Rooms.{is_room_loaded}
use syncpond.Persistence.{PersistenceManager, fragment_key, open_room_db, get_room_db}
use syncpond.Persistence.Keys.{fragment_of-fragment_key}
use syncpond.Persistence.Rooms.{Action, RoomPersistence, fragment_of, persist_fragment, put}
use syncpond.Kernel.{SyncpondKernel, in_room_db, persist_in}
use syncpond.Kernel.Writing.{
  handle_write_fragment_among, nobody, set_value, persist_value, announce_value, parse_value,
  persisted_value, write_value, handle_write_fragment,
}

module _ {D C : Type 0} where
  -- A store that is open is the one that the action works on.
  db-persist_in :
      (open_db : ℕ → Result D String) (i : ℕ) (action : Action D C (Unit {0}))
      (pm : PersistenceManager D C) (db : D)
      → get i pm.dbs ≡ some db
      → get i (persist_in open_db i action pm).dbs
        ≡ some ((action (record { db = db; bucket_cache = pm.bucket_cache })).1.db)
  unfolding persist_in in_room_db open_room_db get_room_db contains_key
  db-persist_in open_db i action pm db at_i =
      let after = (action (record { db = db; bucket_cache = pm.bucket_cache })).1 in
      ground (arith, get-insert_self i after.db pm.dbs)

module _ {V D C : Type 0} ⦃J : Json V⦄ ⦃R : Rocks D⦄ where
  db-persist_fragment :
      (container key : String) (v : V) (bytes : Bytes) (s : RoomPersistence D C) (db1 : D)
      → J.to_vec v ≡ some bytes
      → R.db_put (fragment_key container key) bytes s.db ≡ (ok tt, db1)
      → (persist_fragment container key (some v) s).1.db ≡ db1
  unfolding persist_fragment put
  db-persist_fragment container key v bytes s db1 saved stored = ground arith

  -- In a loaded room whose store is open and takes the write, for a bucket whose id is a u64: a
  -- value that is no null, has no float and no depth that its JSON does not give back, and can be
  -- serialized stands in the store afterwards, as JSON, under a key that the loading of fragments
  -- reads back as the fragment's bucket, key and value.
  pub write_fragment-persisted :
      (open_db : ℕ → Result D String) (from_utf8_lossy : Bytes → String) (i b : ℕ) (key : String)
      (bytes stored : Bytes) (k : SyncpondKernel V D C) (db db1 : D)
      → b ≤ u64_max
      → is_room_loaded i k.state ≡ true
      → J.is_null (parse_value from_utf8_lossy bytes) ≡ false
      → J.is_exact (parse_value from_utf8_lossy bytes) ≡ true
      → J.to_vec (parse_value from_utf8_lossy bytes) ≡ some stored
      → get i k.persistence.dbs ≡ some db
      → R.db_put (fragment_key (to_string b) key) stored db ≡ (ok tt, db1)
      → (get i (handle_write_fragment open_db from_utf8_lossy i b key bytes k).1.persistence.dbs
          ≡ some db1)
        × (R.db_get (fragment_key (to_string b) key) db1 ≡ ok (some stored))
        × (fragment_of (some (fragment_key (to_string b) key)) stored
            ≡ some (b, key, parse_value {V = V} from_utf8_lossy bytes))
  unfolding handle_write_fragment handle_write_fragment_among nobody write_value set_value
      persist_value announce_value persisted_value
  write_fragment-persisted open_db from_utf8_lossy i b key bytes stored k db db1 bound loaded real
        exact saved at_i wrote =
      let v = parse_value {V = V} from_utf8_lossy bytes in
      let fk = fragment_key (to_string b) key in
      let s : RoomPersistence D C = record { db = db; bucket_cache = k.persistence.bucket_cache } in
      (
        ground (
          arith,
          db-persist_in open_db i (persist_fragment (to_string b) key (some v)) k.persistence db
              at_i,
          db-persist_fragment (to_string b) key v stored s db1 saved wrote,
        ),
        ground (arith, R.get-put fk fk stored db db1 wrote, ==_refl fk),
        fragment_of-fragment_key b key v stored bound exact saved,
      )
