-- ===== src/State/Views.antt =====
-- What clients are shown of a room: info, snapshot, delta; server/crates/sp-kernel/src/state/mod.rs.
-- A JSON object that the source builds with `json!` is a record of its fields.
pub mod Exact
pub mod Sync
pub mod Catchup
use Prim.Native.String.{◌++◌ as str_append}
use syncpond.Base.{
  ℕ, ◌+◌, String, Bool, true, false, not, ◌&&◌, ◌||◌, Option, none, some, List, [], ◌∷◌, Result, ok,
  err, fail_if, ◌>>=◌, ◌>>◌, ltb, leb, is_empty, length, if◌then◌else◌,
}
use syncpond.Base.Eq.{nat_eq, string_eq, ◌==◌}
use syncpond.Base.HashMap.{HashMap, insert}
use syncpond.Base.HashSet.{HashSet, contains}
use syncpond.Base.Text.Decimal.{to_string}
use syncpond.Extern.Json.{Json}
use syncpond.State.{
  FragmentEntry, Fragments, RoomState, AppState, Outcome, room_of, server_only_bucket_id,
}
use syncpond.State.Errors.{room_io_busy}

pub record RoomInfo : Type 0 where
  pub room_id : ℕ
  pub room_counter : ℕ
  pub container_count : ℕ
  pub fragment_count : ℕ

-- The object that `room_snapshot` and `room_delta` return.
pub record RoomView (V : Type 0) : Type 0 where
  pub room_counter : ℕ
  pub buckets : HashMap String (HashMap String V)

-- `format!("bucket_{}", bucket_id)`
unfoldable pub bucket_name : ℕ → String
unfolding to_string
bucket_name bucket_id = str_append "bucket_" (to_string bucket_id)

module _ {V : Type 0} where
  fragment_total : HashMap ℕ (Fragments V) → ℕ
  fragment_total [] = 0
  fragment_total ((id, c) ∷ buckets) = length c + fragment_total buckets

  unfoldable pub room_info : ℕ → AppState V → Outcome RoomInfo
  unfolding room_of fragment_total
  room_info room_id app = do
    room ← room_of room_id app
    fail_if room.io_locked room_io_busy
    ok (record {
      room_id = room_id;
      room_counter = room.room_counter;
      container_count = length room.buckets;
      fragment_count = fragment_total room.buckets;
    })

  -- The entries of a bucket that are newer than `since`, tombstones included.
  newer : ℕ → Fragments V → HashMap String V
  unfolding insert
  newer since [] = []
  newer since ((key, entry) ∷ fragments) =
      let rest = newer since fragments in
      if ltb since entry.key_version then insert key entry.value rest else rest

  delta_buckets : ℕ → HashSet ℕ → HashMap ℕ (Fragments V) → HashMap String (HashMap String V)
  unfolding insert newer contains bucket_name
  delta_buckets since allowed [] = []
  delta_buckets since allowed ((bucket_id, fragments) ∷ buckets) =
      let rest = delta_buckets since allowed buckets in
      let bucket_map = newer since fragments in
      if bucket_id == server_only_bucket_id
      then rest
      else if not (bucket_id == 0) && not (contains bucket_id allowed)
      then rest
      else if is_empty bucket_map
      then rest
      else insert (bucket_name bucket_id) bucket_map rest

  unfoldable pub delta_of_room : ℕ → HashSet ℕ → RoomState V → RoomView V
  unfolding delta_buckets
  delta_of_room since allowed room =
      if leb room.room_counter since
      then record { room_counter = room.room_counter; buckets = [] }
      else record {
        room_counter = room.room_counter;
        buckets = delta_buckets since allowed room.buckets;
      }

module _ {V : Type 0} ⦃J : Json V⦄ where
  -- The entries of a bucket that are no tombstones.
  live : Fragments V → HashMap String V
  unfolding insert
  live [] = []
  live ((key, entry) ∷ fragments) =
      let rest = live fragments in
      if not (J.is_null entry.value) then insert key entry.value rest else rest

  snapshot_buckets : HashSet ℕ → HashMap ℕ (Fragments V) → HashMap String (HashMap String V)
  unfolding insert live contains bucket_name
  snapshot_buckets allowed [] = []
  snapshot_buckets allowed ((bucket_id, fragments) ∷ buckets) =
      let rest = snapshot_buckets allowed buckets in
      if bucket_id == server_only_bucket_id
      then rest
      else if bucket_id == 0 || contains bucket_id allowed
      then insert (bucket_name bucket_id) (live fragments) rest
      else rest

  unfoldable pub snapshot_of_room : HashSet ℕ → RoomState V → RoomView V
  unfolding snapshot_buckets
  snapshot_of_room allowed room = record {
    room_counter = room.room_counter;
    buckets = snapshot_buckets allowed room.buckets;
  }

-- `rooms.get(&room_id)?` and `read().ok()?`
abbrev pub shown : {A B : Type 0} → (A → B) → Outcome A → Option B
shown f (ok room) = some (f room)
shown f (err e) = none

unfoldable pub room_snapshot :
    {V : Type 0} ⦃J : Json V⦄ → ℕ → HashSet ℕ → AppState V → Option (RoomView V)
unfolding room_of snapshot_of_room
room_snapshot room_id allowed app = shown (snapshot_of_room allowed) (room_of room_id app)

unfoldable pub room_delta : {V : Type 0} → ℕ → ℕ → HashSet ℕ → AppState V → Option (RoomView V)
unfolding room_of delta_of_room
room_delta room_id since allowed app = shown (delta_of_room since allowed) (room_of room_id app)
