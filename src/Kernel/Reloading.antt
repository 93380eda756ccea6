-- ===== src/Kernel/Reloading.antt =====
-- What a room reads of its store when it is loaded again.
use syncpond.Base.{
  ℕ, String, ◌≡◌, ◌∙◌, ap, refl, true, false, some, List, [], ◌∷◌, arith, Result, ok,
}
use syncpond.Base.Eq.{nat_eq, string_eq}
use syncpond.Base.HashMap.{HashMap, get, contains_key}
use syncpond.Base.HashSet.{HashSet}
use syncpond.Extern.Json.{Json, Bytes}
use syncpond.Extern.Rocks.{Rocks, Lru, Serde, IsReadable}
use syncpond.Protocol.{load_room_response, fragment_read_response}
use syncpond.State.{FragmentEntry, RoomState, AppState, room_of, put_room}
use syncpond.State.Access.{room_of-put_room_self, update_room_at}
use syncpond.State.Members.{usable}
use syncpond.State.Rooms.{BucketDef, load_bucket, load_buckets, load_into, load_room_data}
use syncpond.State.Rooms.Lifecycle.{is_declared, entry_at-load_into}
use syncpond.State.Fragments.{get_fragment}
use syncpond.State.Fragments.Entries.{entry_at, get_in_room-entry_at}
use syncpond.Persistence.{BucketRecord, BucketRecords, open_room_db, get_room_db}
use syncpond.Persistence.Buckets
use syncpond.Persistence.Rooms.{RoomPersistence, fragment_of, load_members, load_all_fragments}
use syncpond.Persistence.Scan.{IsAlone, value_at, load_all_fragments-finds}
use syncpond.Persistence.Reads.{load_members-same, load_buckets-db}
use syncpond.Kernel.{SyncpondKernel}
use syncpond.Kernel.Loading.{
  or_default, bucket_defs, handle_load_room, load_found, load_from, load_opened, read_room, settle,
}
use syncpond.Kernel.Writing.{handle_read_fragment, read_response}

module _ {V : Type 0} where
  unlocked-load_buckets :
      (found : HashMap ℕ (HashMap String V)) (defs : List BucketDef) (room : RoomState V)
      → (load_buckets found room defs).io_locked ≡ room.io_locked
  unfolding load_buckets load_bucket
  unlocked-load_buckets found [] room = refl
  unlocked-load_buckets found (d ∷ defs) room =
      unlocked-load_buckets found defs (load_bucket found room d)

module _ {V : Type 0} ⦃J : Json V⦄ where
  -- A value that was loaded can be read.
  get-load_into :
      (i b : ℕ) (key : String) (v : V) (defs : List BucketDef) (members : HashSet String)
      (found : HashMap ℕ (HashMap String V)) (room : RoomState V) (app : AppState V)
      → room.io_locked ≡ false
      → is_declared b defs ≡ true
      → value_at b key found ≡ some v
      → J.is_null v ≡ false
      → get_fragment i b key (put_room i (load_into defs members found room) app) ≡ ok (v, 0)
  unfolding get_fragment
  get-load_into i b key v defs members found room app free declared at_key real =
      let next = load_into defs members found room in
      let cleared : RoomState V = record room {
        buckets = [];
        bucket_labels = [];
        bucket_flags = [];
      } in
      let entry : FragmentEntry V = record { value = v; key_version = 0 } in
      let ready : usable next ≡ ok tt =
        unfold load_into in
        unfold usable in ground (arith, unlocked-load_buckets found defs cleared) in
      let here : entry_at b key next ≡ some entry =
        unfold value_at in ground (arith, entry_at-load_into defs members found b key room) in
      rw (room_of-put_room_self i next app)
        (ground (arith, get_in_room-entry_at b key entry next ready here))

module _ {V D C : Type 0} ⦃J : Json V⦄ ⦃R : Rocks D⦄ ⦃L : Lru BucketRecords C⦄ ⦃I : Serde (List ℕ)⦄
    ⦃M : Serde (List String)⦄ ⦃B : Serde BucketRecord⦄ (open_db : ℕ → Result D String) where
  read_room-finds :
      (i b : ℕ) (key : String) (v : V) (k : String) (stored : Bytes) (recs : BucketRecords)
      (s : RoomPersistence D C)
      → (Buckets.load_buckets i s).0 ≡ ok recs
      → fragment_of (some k) stored ≡ some (b, key, v)
      → R.db_get k s.db ≡ ok (some stored)
      → IsReadable (R.iterator s.db)
      → IsAlone V b key k s.db
      → (members : HashSet String) × (found : HashMap ℕ (HashMap String V)) × ((read_room open_db i
            s).0
          ≡ ok (bucket_defs recs, members, found))
        × (value_at b key found ≡ some v)
  unfolding read_room
  read_room-finds i b key v k stored recs s known reads there fine alone =
      let buckets = Buckets.load_buckets i s in
      let members = load_members i buckets.1 in
      let same : members.1.db ≡ s.db =
        ap (λ (t : RoomPersistence D C). t.db) (load_members-same i buckets.1)
        ∙ load_buckets-db i s in
      let (found, loaded, at_key) =
        load_all_fragments-finds b key v k stored members.1 reads (rw same there) (rw same fine)
          (rw same alone) in
      let fragments : (load_all_fragments {V = V} members.1).0 ≡ ok found = ap (λ p. p.0) loaded in
      let got : (read_room {V = V} open_db i s).0
          ≡ ok (bucket_defs recs, or_default members.0, found) =
        ground arith in
      (or_default members.0, found, got, at_key)

  -- A load of a room whose store is open
  handle_load_room-opened :
      (i : ℕ) (k : SyncpondKernel V D C) (db : D)
      → get i k.persistence.dbs ≡ some db
      → handle_load_room open_db i k ≡ load_from open_db i k (some db)
  unfolding handle_load_room load_opened open_room_db get_room_db contains_key
  handle_load_room-opened i k db at_i = ground arith

  load_found-room :
      (i : ℕ) (k : SyncpondKernel V D C) (room : RoomState V) (defs : List BucketDef)
      (members : HashSet String) (found : HashMap ℕ (HashMap String V))
      → room_of i k.state ≡ ok room
      → load_found open_db i k (ok (defs, members, found)) ≡ (
        load_room_response (ok tt),
        record k { state = put_room i (load_into defs members found room) k.state },
      )
  unfolding load_found settle load_room_data
  load_found-room i k room defs members found at_i =
      rw (update_room_at i (λ r. ok (load_into defs members found r)) k.state room at_i) refl

  -- A room that can be read and is not locked for input and output, whose store is open and can be
  -- read through: where the loaded bucket records have the bucket of a fragment that the store
  -- holds under one key only, the room can be loaded, and ReadFragment then answers the value.
  pub reload-reads :
      (i b : ℕ) (key : String) (v : V) (fk : String) (stored : Bytes) (recs : BucketRecords)
      (room : RoomState V) (db : D) (k : SyncpondKernel V D C)
      → room_of i k.state ≡ ok room
      → room.io_locked ≡ false
      → get i k.persistence.dbs ≡ some db
      → (Buckets.load_buckets i (record { db = db; bucket_cache = k.persistence.bucket_cache })).0
        ≡ ok recs
      → is_declared b (bucket_defs recs) ≡ true
      → J.is_null v ≡ false
      → fragment_of (some fk) stored ≡ some (b, key, v)
      → R.db_get fk db ≡ ok (some stored)
      → IsReadable (R.iterator db)
      → IsAlone V b key fk db
      → let r = handle_load_room open_db i k in
        (r.0 ≡ load_room_response (ok tt))
        × ((handle_read_fragment i b key r.1).0 ≡ fragment_read_response (J.to_vec v))
  unfolding load_from handle_read_fragment read_response
  reload-reads i b key v fk stored recs room db k at_i free opened known declared real reads there
        fine alone =
      let s : RoomPersistence D C = record { db = db; bucket_cache = k.persistence.bucket_cache } in
      let (members, found, got, at_key) =
        read_room-finds i b key v fk stored recs s known reads there fine alone in
      let k1 : SyncpondKernel V D C = record k {
        persistence = record k.persistence {
          bucket_cache = (read_room {V = V} open_db i s).1.bucket_cache;
        };
      } in
      let defs = bucket_defs recs in
      let ends = load_found-room i k1 room defs members found at_i in
      let value =
        get-load_into i b key v defs members found room k.state free declared at_key real in
      rw (handle_load_room-opened i k db opened, got, ends) (refl, rw value refl)
