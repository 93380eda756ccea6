-- ===== src/Kernel/Durable.antt =====
-- What was written to a room is there again once the room was unloaded and loaded.
use syncpond.Base.{
  ℕ, ◌≤◌, String, ◌≡◌, ◌∙◌, refl, true, false, Option, none, some, List, arith, Result, ok, u64_max,
}
use syncpond.Base.Eq.{nat_eq, string_eq}
use syncpond.Base.HashMap.{get, contains_key}
use syncpond.Base.Text.Decimal.{to_string}
use syncpond.Extern.Json.{Json, Bytes}
use syncpond.Extern.Rocks.{Rocks, Lru, Serde, IsReadable}
use syncpond.Protocol.{load_room_response, unload_room_response, fragment_read_response}
use syncpond.State.{RoomState, RoomCommand, room_of, put_room}
use syncpond.State.Access.{room_of-put_room_self, update_room_at}
use syncpond.State.Members.{usable}
use syncpond.State.Rooms.{unloaded, unload_room, is_room_loaded}
use syncpond.State.Rooms.Lifecycle.{is_declared}
use syncpond.State.Fragments.{set_now, write_entry}
use syncpond.Persistence.{
  BucketRecord, BucketRecords, PersistenceManager, fragment_key, open_room_db, get_room_db,
}
use syncpond.Persistence.Buckets
use syncpond.Persistence.Rooms.{Action, RoomPersistence, persist_fragment, put}
use syncpond.Persistence.Scan.{IsAlone, IsAlone-put}
use syncpond.Kernel.{SyncpondKernel, persist_in, in_room_db}
use syncpond.Kernel.Loading.{bucket_defs, handle_load_room, handle_unload_room, settle}
use syncpond.Kernel.Writing.{
  handle_write_fragment_among, nobody, set_value, persist_value, announce_value, parse_value,
  persisted_value, write_value, handle_write_fragment, handle_read_fragment,
}
use syncpond.Kernel.Written.{usable-loaded, set_fragment-usable}
use syncpond.Kernel.Parsed.{StandsFor, StandsFor-parse_value}
use syncpond.Kernel.Persisted.{write_fragment-persisted}
use syncpond.Kernel.Reloading.{reload-reads}

module _ {V : Type 0} where
  set_now-unlocked :
      (b : ℕ) (key : String) (v : V) (room : RoomState V) (buffer : Option (List (RoomCommand V)))
      → (set_now b key v room buffer).io_locked ≡ room.io_locked
  unfolding set_now write_entry
  set_now-unlocked b key v room none = refl
  set_now-unlocked b key v room (some buffer) = refl

  usable-unlocked : (room : RoomState V) → usable room ≡ ok tt → room.io_locked ≡ false
  unfolding usable
  usable-unlocked room ready = ground arith

module _ {V D C : Type 0} where
  handle_unload_room-room :
      (i : ℕ) (k : SyncpondKernel V D C) (room : RoomState V)
      → room_of i k.state ≡ ok room
      → handle_unload_room i k
        ≡ (unload_room_response (ok tt), record k { state = put_room i (unloaded room) k.state })
  unfolding handle_unload_room settle unload_room
  handle_unload_room-room i k room at_i =
      rw (update_room_at i (λ r. ok (unloaded r)) k.state room at_i) refl

module _ {D C : Type 0} (open_db : ℕ → Result D String) where
  cache-persist_in :
      (i : ℕ) (action : Action D C (Unit {0})) (pm : PersistenceManager D C) (db : D)
      → get i pm.dbs ≡ some db
      → (persist_in open_db i action pm).bucket_cache
        ≡ (action (record { db = db; bucket_cache = pm.bucket_cache })).1.bucket_cache
  unfolding persist_in in_room_db open_room_db get_room_db contains_key
  cache-persist_in i action pm db at_i = ground arith

module _ {V D C : Type 0} ⦃J : Json V⦄ ⦃R : Rocks D⦄ where
  cache-persist_fragment :
      (container key : String) (v : V) (bytes : Bytes) (s : RoomPersistence D C) (db1 : D)
      → J.to_vec v ≡ some bytes
      → R.db_put (fragment_key container key) bytes s.db ≡ (ok tt, db1)
      → (persist_fragment container key (some v) s).1.bucket_cache ≡ s.bucket_cache
  unfolding persist_fragment put
  cache-persist_fragment container key v bytes s db1 saved stored = ground arith

module _ {V D C : Type 0} ⦃J : Json V⦄ ⦃R : Rocks D⦄ (open_db : ℕ → Result D String)
    (from_utf8_lossy : Bytes → String) where
  -- What a write leaves in memory
  written-state :
      (i b : ℕ) (key : String) (bytes : Bytes) (room : RoomState V) (k : SyncpondKernel V D C)
      → room_of i k.state ≡ ok room
      → usable room ≡ ok tt
      → let k1 = (handle_write_fragment open_db from_utf8_lossy i b key bytes k).1 in
        (next : RoomState V) × (room_of i k1.state ≡ ok next) × (next.io_locked ≡ false)
  unfolding handle_write_fragment handle_write_fragment_among nobody write_value set_value
      persist_value announce_value
  written-state i b key bytes room k found ready =
      let v = parse_value {V = V} from_utf8_lossy bytes in
      let next = set_now b key v room room.tx_buffer in
      let wrote = set_fragment-usable i b key v room k.state found ready in
      (
        next,
        ground
            (arith, usable-loaded i room k.state found ready, room_of-put_room_self i next k.state),
        set_now-unlocked b key v room room.tx_buffer ∙ usable-unlocked room ready,
      )

  written-cache :
      (i b : ℕ) (key : String) (bytes stored : Bytes) (k : SyncpondKernel V D C) (db db1 : D)
      → is_room_loaded i k.state ≡ true
      → J.is_null (parse_value from_utf8_lossy bytes) ≡ false
      → J.to_vec (parse_value from_utf8_lossy bytes) ≡ some stored
      → get i k.persistence.dbs ≡ some db
      → R.db_put (fragment_key (to_string b) key) stored db ≡ (ok tt, db1)
      → (handle_write_fragment open_db from_utf8_lossy i b key bytes k).1.persistence.bucket_cache
        ≡ k.persistence.bucket_cache
  unfolding handle_write_fragment handle_write_fragment_among nobody write_value set_value
      persist_value announce_value persisted_value
  written-cache i b key bytes stored k db db1 loaded real saved at_i wrote =
      let v = parse_value {V = V} from_utf8_lossy bytes in
      let s : RoomPersistence D C = record { db = db; bucket_cache = k.persistence.bucket_cache } in
      let action : Action D C (Unit {0}) = persist_fragment (to_string b) key (some v) in
      ground (
        arith,
        cache-persist_in open_db i action k.persistence db at_i,
        cache-persist_fragment (to_string b) key v stored s db1 saved wrote,
      )

module _ {V D C : Type 0} ⦃J : Json V⦄ ⦃R : Rocks D⦄ ⦃L : Lru BucketRecords C⦄ ⦃I : Serde (List ℕ)⦄
    ⦃M : Serde (List String)⦄ ⦃B : Serde BucketRecord⦄ (open_db : ℕ → Result D String)
    (from_utf8_lossy : Bytes → String) where
  -- Some content is written, which is the JSON of a value or, where it is no JSON, stands for its
  -- text, and the value is no null, has no float and no depth that its JSON does not give back, and
  -- can be serialized; it is written to a bucket whose id is a u64, of a room that is loaded and
  -- not locked for input and output, in a transaction or not, and whose store is open, takes the
  -- write and can be read through afterwards. Where the bucket has a record, and no other key of
  -- the store reads as that fragment: when the room is then unloaded and loaded again, both
  -- succeed, and ReadFragment answers the value's serialization.
  pub reload-write_fragment :
      (i b : ℕ) (key : String) (bytes stored : Bytes) (v : V) (recs : BucketRecords)
      (room : RoomState V) (db db1 : D) (k : SyncpondKernel V D C)
      → b ≤ u64_max
      → room_of i k.state ≡ ok room
      → usable room ≡ ok tt
      → StandsFor from_utf8_lossy bytes v
      → J.is_null v ≡ false
      → J.is_exact v ≡ true
      → J.to_vec v ≡ some stored
      → get i k.persistence.dbs ≡ some db
      → R.db_put (fragment_key (to_string b) key) stored db ≡ (ok tt, db1)
      → IsReadable (R.iterator db1)
      → IsAlone V b key (fragment_key (to_string b) key) db
      → (Buckets.load_buckets i (record { db = db1; bucket_cache = k.persistence.bucket_cache })).0
        ≡ ok recs
      → is_declared b (bucket_defs recs) ≡ true
      → let wrote = (handle_write_fragment open_db from_utf8_lossy i b key bytes k).1 in
        let left = handle_unload_room i wrote in
        let back = handle_load_room open_db i left.1 in
        (left.0 ≡ unload_room_response (ok tt))
        × (back.0 ≡ load_room_response (ok tt))
        × ((handle_read_fragment i b key back.1).0 ≡ fragment_read_response (some stored))
  reload-write_fragment i b key bytes stored v recs room db db1 k bound found ready stands real
        exact saved at_i put_ok fine alone known declared =
      let parsed = StandsFor-parse_value from_utf8_lossy bytes v stands in
      let real' : J.is_null (parse_value from_utf8_lossy bytes) ≡ false = rw parsed real in
      let exact' : J.is_exact (parse_value from_utf8_lossy bytes) ≡ true = rw parsed exact in
      let saved' : J.to_vec (parse_value from_utf8_lossy bytes) ≡ some stored = rw parsed saved in
      let read = parse_value {V = V} from_utf8_lossy bytes in
      let fk = fragment_key (to_string b) key in
      let loaded = usable-loaded i room k.state found ready in
      let wrote = (handle_write_fragment open_db from_utf8_lossy i b key bytes k).1 in
      let (next, at_next, free) =
        written-state open_db from_utf8_lossy i b key bytes room k found ready in
      let (store, there, reads) =
        write_fragment-persisted open_db from_utf8_lossy i b key bytes stored k db db1 bound loaded
          real' exact' saved' at_i put_ok in
      let cache =
        written-cache open_db from_utf8_lossy i b key bytes stored k db db1 loaded real' saved' at_i
          put_ok in
      let left = handle_unload_room-room i wrote next at_next in
      let k2 : SyncpondKernel V D C = record wrote {
        state = put_room i (unloaded next) wrote.state;
      } in
      let back =
        reload-reads open_db i b key read fk stored recs (unloaded next) db1 k2
          (room_of-put_room_self i (unloaded next) wrote.state) (unfold unloaded in free) store
          (rw cache known) declared real' reads there fine
          (IsAlone-put b key fk stored db db1 put_ok alone) in
      rw left (refl, back.0, rw (← saved') back.1)
