-- ===== src/Kernel/Written.antt =====
-- What a WriteFragment command leaves in the state, in the store and in the channel.
use syncpond.Base.{
  ℕ, ◌<◌, String, ◌≡◌, refl, true, false, none, some, List, [], ◌∷◌, ◌++◌, arith, Result, ok,
  length,
}
use syncpond.Base.Eq.{nat_eq, string_eq}
use syncpond.Extern.Json.{Json, Bytes}
use syncpond.Extern.Rocks.{Rocks}
use syncpond.Protocol.{broadcast, fragment_read_response}
use syncpond.State.{RoomState, RoomCommand, set, AppState, room_of, put_room}
use syncpond.State.Access.{room_of-put_room_self, update_room_at}
use syncpond.State.Members.{usable}
use syncpond.State.Rooms.{is_room_loaded}
use syncpond.State.Fragments.{
  buffered, set_now, set_in_room, set_fragment, get_fragment, get_in_room, room_version,
}
use syncpond.State.Fragments.Writes.{get-set_fragment}
use syncpond.Kernel.{SyncpondKernel, notify, channel_capacity}
use syncpond.Kernel.Writing.{
  handle_write_fragment_among, nobody, set_value, persist_value, announce_value, parse_value,
  read_response, handle_read_fragment, write_value, handle_write_fragment, version_or_zero,
}

module _ {V : Type 0} ⦃J : Json V⦄ where
  pub usable-loaded :
      (i : ℕ) (room : RoomState V) (app : AppState V)
      → room_of i app ≡ ok room
      → usable room ≡ ok tt
      → is_room_loaded i app ≡ true
  unfolding is_room_loaded usable
  usable-loaded i room app found ready = ground arith

  pub set_fragment-usable :
      (i b : ℕ) (key : String) (v : V) (room : RoomState V) (app : AppState V)
      → room_of i app ≡ ok room
      → usable room ≡ ok tt
      → set_fragment i b key v app ≡ ok (put_room i (set_now b key v room room.tx_buffer) app)
  unfolding set_fragment set_in_room
  set_fragment-usable i b key v room app found ready =
      ground (arith, update_room_at i (set_in_room b key v) app room found)

  get_fragment-buffered :
      (i c : ℕ) (j : String) (command : RoomCommand V) (buffer : List (RoomCommand V))
      (room : RoomState V) (app : AppState V)
      → room_of i app ≡ ok room
      → get_fragment i c j (put_room i (buffered command buffer room) app) ≡ get_fragment i c j app
  unfolding get_fragment get_in_room usable
  get_fragment-buffered i c j command buffer room app found =
      rw (room_of-put_room_self i (buffered command buffer room) app, found) refl

  room_version-buffered :
      (i : ℕ) (command : RoomCommand V) (buffer : List (RoomCommand V)) (room : RoomState V)
      (app : AppState V)
      → usable room ≡ ok tt
      → version_or_zero (room_version i (put_room i (buffered command buffer room) app))
        ≡ room.room_counter
  unfolding room_version usable version_or_zero
  room_version-buffered i command buffer room app ready =
      ground (arith, room_of-put_room_self i (buffered command buffer room) app)

module _ {V D C : Type 0} ⦃J : Json V⦄ ⦃R : Rocks D⦄ (open_db : ℕ → Result D String)
    (from_utf8_lossy : Bytes → String) where
  -- In a room that can be read, is loaded, is not locked for input and output and is in no
  -- transaction: what WriteFragment was given, unless it is a null, is what ReadFragment then
  -- answers, as JSON.
  pub read-write_fragment :
      (i b : ℕ) (key : String) (bytes : Bytes) (room : RoomState V) (k : SyncpondKernel V D C)
      → room_of i k.state ≡ ok room
      → usable room ≡ ok tt
      → room.tx_buffer ≡ none
      → J.is_null (parse_value from_utf8_lossy bytes) ≡ false
      → (handle_read_fragment i b key
          ((handle_write_fragment open_db from_utf8_lossy i b key bytes k).1)).0
        ≡ fragment_read_response (J.to_vec (parse_value {V = V} from_utf8_lossy bytes))
  unfolding handle_read_fragment handle_write_fragment handle_write_fragment_among nobody
      write_value set_value persist_value announce_value read_response
  read-write_fragment i b key bytes room k found ready closed real =
      let v = parse_value {V = V} from_utf8_lossy bytes in
      let wrote = set_fragment-usable i b key v room k.state found ready in
      let got = get-set_fragment i b key v room k.state _ found closed wrote in
      ground (arith, usable-loaded i room k.state found ready, got.0)

  -- While a transaction of a usable room is open and the channel has space, a WriteFragment
  -- changes no answer of ReadFragment in that room, but its value is broadcast at once, under the
  -- room's old version.
  pub write_fragment-in_transaction :
      (i b : ℕ) (key : String) (bytes : Bytes) (room : RoomState V) (buffer : List (RoomCommand V))
      (k : SyncpondKernel V D C)
      → room_of i k.state ≡ ok room
      → usable room ≡ ok tt
      → room.tx_buffer ≡ some buffer
      → length k.notifications < channel_capacity
      → ((c : ℕ) (j : String)
          → (handle_read_fragment i c j
              ((handle_write_fragment open_db from_utf8_lossy i b key bytes k).1)).0
            ≡ (handle_read_fragment i c j k).0)
        × ((handle_write_fragment open_db from_utf8_lossy i b key bytes k).1.notifications
            ≡ k.notifications
              ++ broadcast (record {
                bucket_id = b;
                key = key;
                value = some (parse_value from_utf8_lossy bytes);
                bucket_counter = room.room_counter;
              })
                ∷ [])
  unfolding handle_read_fragment handle_write_fragment handle_write_fragment_among nobody
      write_value set_value persist_value announce_value notify
  write_fragment-in_transaction i b key bytes room buffer k found ready opened space =
      let v = parse_value {V = V} from_utf8_lossy bytes in
      let wrote = set_fragment-usable i b key v room k.state found ready in
      let command : RoomCommand V = set b key v in
      let app = put_room i (buffered command buffer room) k.state in
      let wrote_buffer : set_fragment i b key v k.state ≡ ok app = rw opened at wrote in
      (
        λ c j. ground (
          arith,
          usable-loaded i room k.state found ready,
          get_fragment-buffered i c j command buffer room k.state found,
        ),
        ground (
          arith,
          usable-loaded i room k.state found ready,
          room_version-buffered i command buffer room k.state ready,
        ),
      )
