-- ===== src/State/Transactions.antt =====
-- Transactions of a room, server/crates/sp-kernel/src/state/mod.rs.
pub mod Requests
pub mod Atomic
use syncpond.Base.{
  ℕ, Option, none, some, List, [], ◌∷◌, Result, ok, err, fail_if, ok_or, is_some, ◌>>=◌, ◌>>◌,
}
use syncpond.Extern.Json.{Json}
use syncpond.State.{RoomCommand, set, del, RoomState, AppState, Outcome, update_room}
use syncpond.State.Errors.{room_io_busy, tx_not_open, tx_already_open}
use syncpond.State.Fragments.{write_entry}

module _ {V : Type 0} where
  unfoldable pub begin_in_room : RoomState V → Outcome (RoomState V)
  begin_in_room room = do
    fail_if room.io_locked room_io_busy
    fail_if (is_some room.tx_buffer) tx_already_open
    ok (record room { tx_buffer = some [] })

  unfoldable pub tx_begin : ℕ → AppState V → Outcome (AppState V)
  unfolding update_room begin_in_room
  tx_begin room_id = update_room room_id begin_in_room

  unfoldable pub abort_in_room : RoomState V → Outcome (RoomState V)
  abort_in_room room = do fail_if room.io_locked room_io_busy; ok (record room { tx_buffer = none })

  unfoldable pub tx_abort : ℕ → AppState V → Outcome (AppState V)
  unfolding update_room abort_in_room
  tx_abort room_id = update_room room_id abort_in_room

module _ {V : Type 0} ⦃J : Json V⦄ where
  -- One buffered operation; a deletion makes the bucket and the key if they are missing.
  unfoldable pub apply_command : RoomState V → RoomCommand V → RoomState V
  unfolding write_entry
  apply_command room (set bucket_id key value) = write_entry bucket_id key value room
  apply_command room (del bucket_id key) = write_entry bucket_id key J.null room

  -- `for op in buffer.drain(..)`
  unfoldable pub drain : RoomState V → List (RoomCommand V) → RoomState V
  unfolding apply_command
  drain room [] = room
  drain room (op ∷ ops) = drain (apply_command room op) ops

  unfoldable pub end_in_room : RoomState V → Outcome (RoomState V)
  unfolding drain
  end_in_room room = do
    fail_if room.io_locked room_io_busy
    buffer ← ok_or room.tx_buffer tx_not_open
    ok (drain (record room { tx_buffer = none }) buffer)

  unfoldable pub tx_end : ℕ → AppState V → Outcome (AppState V)
  unfolding update_room end_in_room
  tx_end room_id = update_room room_id end_in_room
