-- ===== src/State/Fragments.antt =====
-- The fragments of a room: write, delete, read; server/crates/sp-kernel/src/state/mod.rs.
pub mod Entries
pub mod Versions
pub mod Writes
use syncpond.Base.{
  ℕ, ◌+◌, String, Bool, not, Option, none, some, List, [], ◌∷◌, ◌++◌, Result, ok, err, fail_if,
  ok_or, ◌>>=◌, ◌>>◌, wrapping_add, unwrap_or,
}
use syncpond.Base.Eq.{nat_eq, string_eq}
use syncpond.Base.HashMap.{get, insert, contains_key}
use syncpond.Extern.Json.{Json}
use syncpond.State.{
  FragmentEntry, Fragments, RoomCommand, set, del, RoomState, AppState, Outcome, room_of,
  update_room,
}
use syncpond.State.Errors.{room_io_busy, bucket_not_found, fragment_not_found, fragment_tombstone}
use syncpond.State.Members.{usable}

module _ {V : Type 0} where
  -- The next version, and the entry under it; the bucket is made if it is missing.
  unfoldable pub write_entry : ℕ → String → V → RoomState V → RoomState V
  unfolding insert get
  write_entry bucket_id key value room =
      let key_version = wrapping_add room.room_counter 1 in
      let entry : FragmentEntry V = record { value = value; key_version = key_version } in
      let bucket_map : Fragments V = unwrap_or (get bucket_id room.buckets) [] in
      record room {
        room_counter = key_version;
        buckets = insert bucket_id (insert key entry bucket_map) room.buckets;
      }

  -- `buffer.push(command)`
  abbrev pub buffered : RoomCommand V → List (RoomCommand V) → RoomState V → RoomState V
  buffered command buffer room = record room { tx_buffer = some (buffer ++ command ∷ []) }

  unfoldable pub set_now :
      ℕ → String → V → RoomState V → Option (List (RoomCommand V)) → RoomState V
  unfolding write_entry
  set_now bucket_id key value room (some buffer) = buffered (set bucket_id key value) buffer room
  set_now bucket_id key value room none = write_entry bucket_id key value room

  unfoldable pub set_in_room : ℕ → String → V → RoomState V → Outcome (RoomState V)
  unfolding usable set_now
  set_in_room bucket_id key value room = do
    usable room
    ok (set_now bucket_id key value room room.tx_buffer)

  unfoldable pub set_fragment : ℕ → ℕ → String → V → AppState V → Outcome (AppState V)
  unfolding update_room set_in_room
  set_fragment room_id bucket_id key value = update_room room_id (set_in_room bucket_id key value)

module _ {V : Type 0} ⦃J : Json V⦄ where
  del_now : ℕ → String → RoomState V → Option (List (RoomCommand V)) → Outcome (RoomState V)
  unfolding write_entry contains_key
  del_now bucket_id key room (some buffer) = ok (buffered (del bucket_id key) buffer room)
  del_now bucket_id key room none = do
    fail_if (not (contains_key bucket_id room.buckets)) bucket_not_found
    ok (write_entry bucket_id key J.null room)

  unfoldable pub del_in_room : ℕ → String → RoomState V → Outcome (RoomState V)
  unfolding usable del_now
  del_in_room bucket_id key room = do usable room; del_now bucket_id key room room.tx_buffer

  unfoldable pub del_fragment : ℕ → ℕ → String → AppState V → Outcome (AppState V)
  unfolding update_room del_in_room
  del_fragment room_id bucket_id key = update_room room_id (del_in_room bucket_id key)

  unfoldable pub get_in_room : ℕ → String → RoomState V → Outcome (V × ℕ)
  unfolding usable get
  get_in_room bucket_id key room = do
    usable room
    bucket_map ← ok_or (get bucket_id room.buckets) bucket_not_found
    fragment ← ok_or (get key bucket_map) fragment_not_found
    fail_if (J.is_null fragment.value) fragment_tombstone
    ok (fragment.value, fragment.key_version)

  unfoldable pub get_fragment : ℕ → ℕ → String → AppState V → Outcome (V × ℕ)
  unfolding room_of get_in_room
  get_fragment room_id bucket_id key app = do
    room ← room_of room_id app
    get_in_room bucket_id key room

unfoldable pub room_version : {V : Type 0} → ℕ → AppState V → Outcome ℕ
unfolding room_of
room_version room_id app = do
  room ← room_of room_id app
  fail_if room.io_locked room_io_busy
  ok room.room_counter
