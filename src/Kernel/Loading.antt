-- ===== src/Kernel/Loading.antt =====
-- The commands NewRoom, LoadRoom and UnloadRoom, and the deletion of a room;
-- server/crates/sp-kernel/src/kernel.rs.
use Prim.Native.String
use syncpond.Base.{ℕ, String, Option, none, some, List, [], map, Result, ok, err, if◌then◌else◌}
use syncpond.Base.Eq.{nat_eq}
use syncpond.Base.HashMap.{HashMap, insert}
use syncpond.Base.HashSet.{HashSet}
use syncpond.Base.Text.{trim, is_empty_str}
use syncpond.Extern.Json.{Json}
use syncpond.Extern.Rocks.{Rocks, Lru, Serde}
use syncpond.Protocol.{CommandResponse, new_room_response, load_room_response, unload_room_response}
use syncpond.State.{AppState, Outcome, after}
use syncpond.State.Errors.{display}
use syncpond.State.Rooms.{BucketDef, create_room, load_room_data, unload_room, delete_room}
use syncpond.State.Labels.{set_room_label}
use syncpond.Persistence.{
  BucketRecord, BucketRecords, PersistenceManager, open_room_db, get_room_db,
}
use syncpond.Persistence.Rooms.{RoomPersistence, load_members, load_all_fragments}
use syncpond.Persistence.Buckets.{load_buckets}
use syncpond.Kernel.{SyncpondKernel}

-- `Result::unwrap_or_default`, of a list
pub or_default : {A : Type 0} → Result (List A) String → List A
or_default (ok l) = l
or_default (err e) = []

-- `.into_values().map(|rec| (rec.id, rec.label, rec.flags))`
unfoldable pub bucket_defs : BucketRecords → List BucketDef
bucket_defs = map λ (p : ℕ × BucketRecord). (p.1.id, p.1.label, p.1.flags)

module _ {V D C : Type 0} where
  unfoldable pub settle :
      (Result (Unit {0}) String → CommandResponse)
      → SyncpondKernel V D C
      → Outcome (AppState V)
      → CommandResponse × SyncpondKernel V D C
  unfolding display
  settle response k (ok app) = (response (ok tt), record k { state = app })
  settle response k (err e) = (response (err (display e)), k)

  unfoldable pub handle_unload_room :
      (room_id : ℕ) → SyncpondKernel V D C → CommandResponse × SyncpondKernel V D C
  unfolding settle unload_room
  handle_unload_room room_id k = settle unload_room_response k (unload_room room_id k.state)

  -- `SyncpondKernel::delete_room`
  unfoldable pub kernel_delete_room :
      (room_id : ℕ) → SyncpondKernel V D C → Result (Unit {0}) String × SyncpondKernel V D C
  unfolding delete_room display
  kernel_delete_room room_id k = elim (delete_room room_id k.state) [
    | ok app ↦ (ok tt, record k { state = app })
    | err e ↦ (err (display e), k)
  ]

  module _ (open_db : ℕ → Result D String) where
    unfoldable pub handle_new_room :
        (name : String) → SyncpondKernel V D C → CommandResponse × SyncpondKernel V D C
    unfolding create_room open_room_db trim is_empty_str set_room_label
    handle_new_room name k =
        let made = create_room k.state in
        let app =
          if is_empty_str (trim name)
          then made.1
          else after made.1 (set_room_label made.0 name made.1) in
        (
          new_room_response made.0,
          record k { state = app; persistence = (open_room_db open_db made.0 k.persistence).1 },
        )

    module _ ⦃J : Json V⦄ ⦃R : Rocks D⦄ ⦃L : Lru BucketRecords C⦄ ⦃I : Serde (List ℕ)⦄
        ⦃M : Serde (List String)⦄ ⦃B : Serde BucketRecord⦄ where
      -- What the store has of a room; the cache is filled on the way.
      unfoldable pub read_room :
          (room_id : ℕ)
          → RoomPersistence D C
          → Result (List BucketDef × HashSet String × HashMap ℕ (HashMap String V)) String
            × RoomPersistence D C
      unfolding load_buckets load_members load_all_fragments or_default bucket_defs
      read_room room_id s =
          let buckets = load_buckets room_id s in
          let members = load_members room_id buckets.1 in
          let fragments = load_all_fragments {V = V} members.1 in
          (
            elim fragments.0 [
              | err e ↦ err (String.◌++◌ "fragment_load_failed: " e)
              | ok found ↦ ok (bucket_defs (or_default buckets.0), or_default members.0, found)
            ],
            fragments.1,
          )

      unfoldable pub load_found :
          (room_id : ℕ)
          → SyncpondKernel V D C
          → Result (List BucketDef × HashSet String × HashMap ℕ (HashMap String V)) String
          → CommandResponse × SyncpondKernel V D C
      unfolding settle load_room_data
      load_found room_id k (err e) = (load_room_response (err e), k)
      load_found room_id k (ok (defs, members, fragments)) =
          settle load_room_response k (load_room_data room_id defs members fragments k.state)

      unfoldable pub load_from :
          (room_id : ℕ) → SyncpondKernel V D C → Option D → CommandResponse × SyncpondKernel V D C
      unfolding read_room load_found insert
      load_from room_id k none = load_found room_id k (ok ([], [], []))
      load_from room_id k (some db) =
          let got =
            read_room room_id (record { db = db; bucket_cache = k.persistence.bucket_cache }) in
          let pm : PersistenceManager D C = record k.persistence {
            bucket_cache = got.1.bucket_cache;
          } in
          load_found room_id (record k { persistence = pm }) got.0

      unfoldable pub load_opened :
          (room_id : ℕ)
          → SyncpondKernel V D C
          → Result (Unit {0}) String
          → CommandResponse × SyncpondKernel V D C
      unfolding load_from get_room_db
      load_opened room_id k (err e) =
          (load_room_response (err (String.◌++◌ "db_open_failed: " e)), k)
      load_opened room_id k (ok _) = load_from room_id k (get_room_db room_id k.persistence)

      unfoldable pub handle_load_room :
          (room_id : ℕ) → SyncpondKernel V D C → CommandResponse × SyncpondKernel V D C
      unfolding open_room_db load_opened
      handle_load_room room_id k =
          let opened = open_room_db open_db room_id k.persistence in
          load_opened room_id (record k { persistence = opened.1 }) opened.0
