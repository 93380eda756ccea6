-- ===== src/Startup/Restored.antt =====
-- What was written before a restart is there after it.
use syncpond.Base.{
  ℕ, ◌≤◌, String, ◌≡◌, refl, true, false, Option, some, List, arith, Result, ok, u64_max, ◌&&◌,
}
use syncpond.Base.Eq.{nat_eq, string_eq}
use syncpond.Base.HashMap.{get}
use syncpond.Base.Text.Decimal.{to_string}
use syncpond.Extern.Json.{Json, Bytes}
use syncpond.Extern.Rocks.{Rocks, Lru, Serde, IsReadable}
use syncpond.Protocol.{load_room_response, fragment_read_response}
use syncpond.State.{room_of}
use syncpond.State.Rooms.{is_room_loaded}
use syncpond.State.Rooms.Lifecycle.{is_declared}
use syncpond.Persistence.{BucketRecord, BucketRecords, fragment_key}
use syncpond.Persistence.Buckets
use syncpond.Persistence.Scan.{IsAlone, IsAlone-put}
use syncpond.Persistence.Directory.Listed.{is_listed, can_open}
use syncpond.Persistence.Directory.Names.{IsListed, is_listed_iff}
use syncpond.Persistence.Directory.Opened.{get-open_existing, cache-open_existing}
use syncpond.Kernel.{SyncpondKernel}
use syncpond.Kernel.Loading.{bucket_defs, handle_load_room}
use syncpond.Kernel.Writing.{parse_value, handle_write_fragment, handle_read_fragment}
use syncpond.Kernel.Parsed.{StandsFor, StandsFor-parse_value}
use syncpond.Kernel.Persisted.{write_fragment-persisted}
use syncpond.Kernel.Reloading.{reload-reads}
use syncpond.Startup.{SyncpondConfig, Server, serving, open_stores, stub_room, start}
use syncpond.Startup.Started.{start-eq-ok, room_of-start}

module _ {V D C A : Type 0} (open_db : ℕ → Result D String)
    (create_dir_all : String → Result (Unit {0}) String)
    (read_dir : Result (List (Option String)) String) (parse_addr : String → Option A)
    (empty_cache : C) (config : SyncpondConfig) (server : Server V D C A)
    (started : start open_db create_dir_all read_dir parse_addr empty_cache config
      ≡ ok server) where
  start-stub :
      (i : ℕ) (db : D)
      → is_listed i read_dir ≡ true
      → open_db i ≡ ok db
      → room_of i server.kernel.state ≡ ok stub_room
  start-stub i db listed opened =
      let rooms =
        room_of-start open_db create_dir_all read_dir parse_addr empty_cache config server started
          i in
      let known : (is_listed i read_dir && can_open (open_db i)) ≡ true = ground arith in
      ground arith

  start-stores :
      (i : ℕ) (db : D)
      → is_listed i read_dir ≡ true
      → open_db i ≡ ok db
      → (get i server.kernel.persistence.dbs ≡ some db)
        × (server.kernel.persistence.bucket_cache ≡ empty_cache)
  unfolding serving open_stores
  start-stores i db listed opened =
      let (base, ws_addr, grpc_addr, blank, same) =
        start-eq-ok open_db create_dir_all read_dir parse_addr empty_cache config server started in
      rw same (
        get-open_existing open_db read_dir empty_cache i db listed opened,
        cache-open_existing open_db read_dir empty_cache,
      )

  module _ ⦃J : Json V⦄ ⦃R : Rocks D⦄ ⦃L : Lru BucketRecords C⦄ ⦃I : Serde (List ℕ)⦄
      ⦃M : Serde (List String)⦄ ⦃B : Serde BucketRecord⦄ (old_open_db : ℕ → Result D String)
      (from_utf8_lossy : Bytes → String) where
    -- Some content is written, which is the JSON of a value or, where it is no JSON, stands for its
    -- text, and the value is no null, has no float and no depth that its JSON does not give back,
    -- and can be serialized; it is written to a bucket whose id is a u64, of a loaded room whose
    -- store is open and takes the write. Another server then starts, whose save directory has an
    -- entry named `room_` and the room's id, and holds the store as it was left. Where that store
    -- can be read through, the bucket has a record in it, and no other of its keys reads as that
    -- fragment: the new server can load the room, and ReadFragment answers the value's
    -- serialization.
    pub restart-write_fragment :
        (i b : ℕ) (key : String) (bytes stored : Bytes) (v : V) (recs : BucketRecords)
        (before db : D) (k : SyncpondKernel V D C)
        → b ≤ u64_max
        → is_room_loaded i k.state ≡ true
        → StandsFor from_utf8_lossy bytes v
        → J.is_null v ≡ false
        → J.is_exact v ≡ true
        → J.to_vec v ≡ some stored
        → get i k.persistence.dbs ≡ some before
        → R.db_put (fragment_key (to_string b) key) stored before ≡ (ok tt, db)
        → IsListed i read_dir
        → ((left : D)
            → get i
                (handle_write_fragment old_open_db from_utf8_lossy i b key bytes
                  k).1.persistence.dbs
              ≡ some left
            → open_db i ≡ ok left)
        → IsReadable (R.iterator db)
        → IsAlone V b key (fragment_key (to_string b) key) before
        → (Buckets.load_buckets i (record { db = db; bucket_cache = empty_cache })).0 ≡ ok recs
        → is_declared b (bucket_defs recs) ≡ true
        → let back = handle_load_room open_db i server.kernel in
          (back.0 ≡ load_room_response (ok tt))
          × ((handle_read_fragment i b key back.1).0 ≡ fragment_read_response (some stored))
    restart-write_fragment i b key bytes stored v recs before db k bound loaded stands real exact
          saved at_i put_ok is_there kept fine alone known declared =
        let parsed = StandsFor-parse_value from_utf8_lossy bytes v stands in
        let real' : J.is_null (parse_value from_utf8_lossy bytes) ≡ false = rw parsed real in
        let exact' : J.is_exact (parse_value from_utf8_lossy bytes) ≡ true = rw parsed exact in
        let saved' : J.to_vec (parse_value from_utf8_lossy bytes) ≡ some stored = rw parsed saved in
        let read = parse_value {V = V} from_utf8_lossy bytes in
        let fk = fragment_key (to_string b) key in
        let (store, there, reads) =
          write_fragment-persisted old_open_db from_utf8_lossy i b key bytes stored k before db
            bound loaded real' exact' saved' at_i put_ok in
        let opened = kept db store in
        let listed = (is_listed_iff i read_dir).1 is_there in
        let (at_new, cache) = start-stores i db listed opened in
        let back =
          reload-reads open_db i b key read fk stored recs stub_room db server.kernel
            (start-stub i db listed opened) refl at_new (rw cache known) declared real' reads there
            fine (IsAlone-put b key fk stored before db put_ok alone) in
        (back.0, rw (← saved') back.1)
