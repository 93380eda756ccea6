-- ===== src/Kernel/Delivered.antt =====
-- From a WriteFragment through the channel and the forwarder to the clients.
use syncpond.Base.{
  ℕ, suc, true, false, ◌<◌, String, ◌≡◌, refl, Option, none, some, List, [], ◌∷◌, ◌++◌, arith,
  Result, ok, length, wrapping_add,
}
use syncpond.Extern.Json.{Json, Bytes}
use syncpond.Extern.Rocks.{Rocks}
use syncpond.Extern.Wire.{Wire}
use syncpond.Protocol.{DataUpdate, broadcast}
use syncpond.State.{RoomState, RoomCommand, room_of, put_room}
use syncpond.State.Access.{room_of-put_room_self}
use syncpond.State.Rooms.{is_room_loaded}
use syncpond.State.Members.{usable}
use syncpond.State.Fragments.{set_now, write_entry, set_fragment, get_fragment, room_version}
use syncpond.State.Fragments.Writes.{get-set_fragment}
use syncpond.Hub.{WsHub, forward, broadcast_update}
use syncpond.Hub.HubInvariant.{HubInv}
use syncpond.Hub.Broadcast.{IsDelivered, broadcast_update-IsDelivered}
use syncpond.Hub.Forwarding.{
  Answers, Turns, KeepsInv, run_forwarder, run_forwarder-HubInv, run_forwarder-append_one,
}
use syncpond.Kernel.{SyncpondKernel, notify, channel_capacity}
use syncpond.Kernel.Writing.{
  Others, set_value, persist_value, announce_value, write_value, handle_write_fragment_among,
  version_or_zero,
}
use syncpond.Kernel.Parsed.{StandsFor, StandsFor-parse_value}
use syncpond.Kernel.Written.{set_fragment-usable}

module _ {V : Type 0} where
  set_now-closed :
      (b : ℕ) (key : String) (v : V) (room : RoomState V) (t : Option (List (RoomCommand V)))
      → t ≡ none
      → set_now b key v room t ≡ write_entry b key v room
  unfolding set_now
  set_now-closed b key v room none closed = refl
  set_now-closed b key v room (some buffer) closed = cc

-- The update that announces a value under a version.
abbrev pub announced :
    {V : Type 0} → (bucket_id : ℕ) (key : String) → V → (version : ℕ) → DataUpdate V
announced bucket_id key v version = record {
  bucket_id = bucket_id;
  key = key;
  value = some v;
  bucket_counter = version;
}

module _ {V D C : Type 0} ⦃J : Json V⦄ ⦃R : Rocks D⦄ (open_db : ℕ → Result D String)
    (others : Others V D C) (i b : ℕ) (key : String) (v : V) (k : SyncpondKernel V D C) where
  -- The kernel right after a write has set its value.
  abbrev pub at_set : SyncpondKernel V D C
  at_set = set_value i b key v (others.before_set k)

  -- The kernel when the write reads the room's version.
  abbrev pub at_read : SyncpondKernel V D C
  at_read = others.before_read (persist_value open_db i b key v (others.before_persist at_set))

  -- The kernel when the write sends its update.
  abbrev pub at_send : SyncpondKernel V D C
  at_send = others.before_send at_read

module _ {V D C : Type 0} ⦃J : Json V⦄ ⦃R : Rocks D⦄ (open_db : ℕ → Result D String)
    (others : Others V D C) (from_utf8_lossy : Bytes → String) where
  set-usable :
      (i b : ℕ) (key : String) (v : V) (room : RoomState V) (k : SyncpondKernel V D C)
      → room_of i (others.before_set k).state ≡ ok room
      → usable room ≡ ok tt
      → room.tx_buffer ≡ none
      → set_fragment i b key v (others.before_set k).state
        ≡ ok (put_room i (write_entry b key v room) (others.before_set k).state)
  set-usable i b key v room k found ready closed =
      let wrote = set_fragment-usable i b key v room (others.before_set k).state found ready in
      rw (set_now-closed b key v room room.tx_buffer closed) at wrote

  -- What the write leaves right after it has set the value.
  at_set-wrote :
      (i b : ℕ) (key : String) (v : V) (room now : RoomState V) (k : SyncpondKernel V D C)
      → room_of i (others.before_set k).state ≡ ok room
      → usable room ≡ ok tt
      → room.tx_buffer ≡ none
      → J.is_null v ≡ false
      → let set = (at_set open_db others i b key v k).state in
        (get_fragment i b key set ≡ ok (v, wrapping_add room.room_counter 1))
        × (room_of i set ≡ ok now → now.room_counter ≡ wrapping_add room.room_counter 1)
  unfolding set_value write_entry
  at_set-wrote i b key v room now k found ready closed real =
      let app = (others.before_set k).state in
      let next = write_entry b key v room in
      let wrote = set-usable i b key v room k found ready closed in
      let got = get-set_fragment i b key v room app (put_room i next app) found closed wrote in
      rw wrote (
        ground (arith, got.0),
        λ same. let at_next = room_of-put_room_self i next app in ground (arith, at_next),
      )

  queued_last :
      (i b : ℕ) (key : String) (content : Bytes) (v : V) (now : RoomState V)
      (k : SyncpondKernel V D C)
      → is_room_loaded i k.state ≡ true
      → StandsFor from_utf8_lossy content v
      → room_of i (at_read open_db others i b key v k).state ≡ ok now
      → now.io_locked ≡ false
      → length (at_send open_db others i b key v k).notifications < channel_capacity
      → (handle_write_fragment_among open_db from_utf8_lossy others i b key content
          k).1.notifications
        ≡ (at_send open_db others i b key v k).notifications
          ++ broadcast (announced b key v now.room_counter) ∷ []
  unfolding handle_write_fragment_among write_value announce_value notify version_or_zero
      room_version
  queued_last i b key content v now k loaded stands found free space =
      let parsed = StandsFor-parse_value from_utf8_lossy content v stands in
      rw (loaded, parsed) (ground arith)

  -- A WriteFragment to a loaded room of some content, which is the JSON of a value that is no null
  -- or, where it is no JSON, stands for its text; others may change the kernel between its locks,
  -- and take turns at the hub that keep its invariant between two messages. Where the room, when
  -- the value is set, can be read, is loaded, is not locked for input and output and is in no
  -- transaction, and can be read and is not locked for input and output when its version is read,
  -- and the channel has space when the update is sent: right after it is set, the room has the
  -- value under the room's next version; and once the forwarder has read the channel up to the
  -- update, the event of the value, under the version that the room had when it was read, stands
  -- once in the queue of every client that then subscribes to the bucket and whose queue takes it,
  -- in no other queue, and after all that was sent before it. Where the room is then as the write
  -- left it, this is the version that the write was given.
  pub write_fragment-IsDelivered :
      {S : Type 0} ⦃W : Wire⦄ (answers : Answers S) (between : Turns S) (i b : ℕ) (key : String)
      (content : Bytes) (v : V) (room now : RoomState V) (k : SyncpondKernel V D C) (hub : WsHub S)
      → is_room_loaded i k.state ≡ true
      → StandsFor from_utf8_lossy content v
      → J.is_null v ≡ false
      → room_of i (others.before_set k).state ≡ ok room
      → usable room ≡ ok tt
      → room.tx_buffer ≡ none
      → room_of i (at_read open_db others i b key v k).state ≡ ok now
      → now.io_locked ≡ false
      → length (at_send open_db others i b key v k).notifications < channel_capacity
      → KeepsInv between
      → HubInv hub
      → let set = (at_set open_db others i b key v k).state in
        let waiting = (at_send open_db others i b key v k).notifications in
        let k' = (handle_write_fragment_among open_db from_utf8_lossy others i b key content k).1 in
        let before = run_forwarder (λ n. answers (suc n)) (λ n. between (suc n)) waiting hub in
        let done = run_forwarder answers between k'.notifications hub in
        (get_fragment i b key set ≡ ok (v, wrapping_add room.room_counter 1))
        × (room_of i set ≡ ok now → now.room_counter ≡ wrapping_add room.room_counter 1)
        × ((sent : List (ℕ × Bytes)) × (done.0 ≡ before.0 ++ sent)
            × IsDelivered
                (answers 0)
                (announced b key v now.room_counter)
                (between 0 before.1)
                sent
                done.1)
  write_fragment-IsDelivered answers between i b key content v room now k hub loaded stands real
        found ready closed found_now free space keeps sound =
      let update = announced b key v now.room_counter in
      let waiting = (at_send open_db others i b key v k).notifications in
      let later = λ (n : ℕ). between (suc n) in
      let before = run_forwarder (λ n. answers (suc n)) later waiting hub in
      let turned = between 0 before.1 in
      let last = broadcast_update (answers 0) update turned in
      let run : run_forwarder answers between (waiting ++ broadcast update ∷ []) hub
          ≡ (before.0 ++ last.0, last.1) =
        unfold forward in run_forwarder-append_one answers between waiting (broadcast update) hub in
      let sound' =
        run_forwarder-HubInv (λ n. answers (suc n)) later waiting hub (λ n. keeps (suc n)) sound in
      let delivered =
        broadcast_update-IsDelivered (answers 0) update turned (keeps 0 before.1 sound') in
      let wrote = at_set-wrote i b key v room now k found ready closed real in
      (
        wrote.0,
        wrote.1,
        rw (queued_last i b key content v now k loaded stands found_now free space)
            (rw run (last.0, refl, delivered)),
      )
