-- ===== src/State/Rooms.antt =====
-- The life of a room: create, load, unload, delete, list; server/crates/sp-kernel/src/state/mod.rs.
pub mod Lifecycle
use syncpond.Base.{
  ℕ, String, Bool, true, false, Option, none, some, List, [], ◌∷◌, map, ok, err, wrapping_add,
  unwrap_or, if◌then◌else◌,
}
use syncpond.Base.Eq.{nat_eq, string_eq, ◌==◌}
use syncpond.Base.HashMap.{HashMap, get, insert, remove, keys, contains_key}
use syncpond.Base.HashSet.{HashSet}
use syncpond.Base.Sort.{sort_unstable}
use syncpond.State.{Fragments, RoomState, RwLock, AppState, Outcome, room_of, update_room}
use syncpond.State.Errors.{room_not_found}

-- The `RoomState` of a new room.
abbrev pub new_room : {V : Type 0} → RoomState V
new_room = record {
  buckets = [];
  room_counter = 0;
  tx_buffer = none;
  io_locked = false;
  loaded = true;
  bucket_labels = [];
  bucket_flags = [];
  members = [];
}

-- A bucket record, as `load_room_data` takes it: (bucket_id, label, flags).
abbrev pub BucketDef : Type 0
BucketDef = ℕ × Option String × ℕ

-- `self.labels.retain(|_k, &mut v| v != room_id)`
unfoldable pub retain_other : ℕ → HashMap String ℕ → HashMap String ℕ
retain_other room_id [] = []
retain_other room_id ((label, v) ∷ labels) =
    let rest = retain_other room_id labels in if v == room_id then rest else (label, v) ∷ rest

module _ {V : Type 0} where
  unfoldable pub create_room : AppState V → ℕ × AppState V
  unfolding insert
  create_room app =
      let lock : RwLock (RoomState V) = record { content = new_room; poisoned = false } in
      (
        app.next_room_id,
        record app {
          next_room_id = wrapping_add app.next_room_id 1;
          rooms = insert app.next_room_id lock app.rooms;
        },
      )

  loaded_flag : Outcome (RoomState V) → Bool
  loaded_flag (ok room) = room.loaded
  loaded_flag (err e) = false

  unfoldable pub is_room_loaded : ℕ → AppState V → Bool
  unfolding room_of loaded_flag
  is_room_loaded room_id app = loaded_flag (room_of room_id app)

  -- A fragment that comes from the disk has version 0.
  abbrev pub fresh_entries : HashMap String V → Fragments V
  fresh_entries = map λ (p : String × V). (p.0, record { value = p.1; key_version = 0 })

  -- One round of the loop over `bucket_defs`.
  unfoldable pub load_bucket : HashMap ℕ (HashMap String V) → RoomState V → BucketDef → RoomState V
  unfolding insert get
  load_bucket fragments room (id, label, flags) = record room {
    bucket_flags = insert id flags room.bucket_flags;
    bucket_labels = elim label [
      | none ↦ room.bucket_labels
      | some lbl ↦ insert id lbl room.bucket_labels
    ];
    buckets = insert id (fresh_entries (unwrap_or (get id fragments) [])) room.buckets;
  }

  unfoldable pub load_buckets :
      HashMap ℕ (HashMap String V) → RoomState V → List BucketDef → RoomState V
  unfolding load_bucket
  load_buckets fragments room [] = room
  load_buckets fragments room (d ∷ defs) =
      load_buckets fragments (load_bucket fragments room d) defs

  unfoldable pub load_into :
      List BucketDef → HashSet String → HashMap ℕ (HashMap String V) → RoomState V → RoomState V
  unfolding load_buckets
  load_into bucket_defs members fragments room =
      let cleared : RoomState V = record room {
        buckets = [];
        bucket_labels = [];
        bucket_flags = [];
      } in
      record (load_buckets fragments cleared bucket_defs) { members = members; loaded = true }

  unfoldable pub load_room_data :
      ℕ
      → List BucketDef
      → HashSet String
      → HashMap ℕ (HashMap String V)
      → AppState V
      → Outcome (AppState V)
  unfolding update_room load_into
  load_room_data room_id bucket_defs members fragments =
      update_room room_id (λ room. ok (load_into bucket_defs members fragments room))

  unfoldable pub unloaded : RoomState V → RoomState V
  unloaded room = record room {
    loaded = false;
    buckets = [];
    bucket_labels = [];
    bucket_flags = [];
    members = [];
  }

  unfoldable pub unload_room : ℕ → AppState V → Outcome (AppState V)
  unfolding update_room unloaded
  unload_room room_id = update_room room_id (λ room. ok (unloaded room))

  unfoldable pub delete_room : ℕ → AppState V → Outcome (AppState V)
  unfolding contains_key remove retain_other
  delete_room room_id app =
      if contains_key room_id app.rooms
      then ok (record app {
        rooms = remove room_id app.rooms;
        labels = retain_other room_id app.labels;
      })
      else err room_not_found

  unfoldable pub list_rooms : AppState V → List ℕ
  unfolding sort_unstable
  list_rooms app = sort_unstable (keys app.rooms)
