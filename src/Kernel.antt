-- ===== src/Kernel.antt =====
-- server/crates/sp-kernel/src/kernel.rs: the commands, on the state, the store and the channel
-- of notifications to the hub.
pub mod Buckets
pub mod Writing
pub mod Parsed
pub mod Written
pub mod Persisted
pub mod Loading
pub mod Commands
pub mod InitialSync
pub mod Reachable
pub mod Stray
pub mod Reloading
pub mod Durable
pub mod Delivered
use syncpond.Base.{
  ℕ, String, Bool, true, false, not, Option, none, some, List, [], ◌∷◌, ◌++◌, Result, ok, err, ltb,
  length, if◌then◌else◌,
}
use syncpond.Base.Eq.{nat_eq}
use syncpond.Base.HashMap.{get, insert}
use syncpond.Extern.Rocks.{Rocks}
use syncpond.Protocol.{UpdateChannelMessage, CommandResponse, load_room_response}
use syncpond.State.{RoomState, RwLock, AppState, put_room}
use syncpond.Persistence.{PersistenceManager, open_room_db, get_room_db}
use syncpond.Persistence.Rooms.{RoomPersistence, Action}

-- `notifications` are the messages that wait in the channel that the hub's forwarder reads.
pub record SyncpondKernel (V D C : Type 0) : Type 0 where
  pub state : AppState V
  pub persistence : PersistenceManager D C
  pub notifications : List (UpdateChannelMessage V)

-- The capacity of the channel, `Downstream::new`
abbrev pub channel_capacity : ℕ
channel_capacity = 1024

-- What a command does to a room that it finds.
pub data Edited (V : Type 0) : Type 0 where
  absent : Edited V
  not_loaded : Edited V
  edited : AppState V → Edited V

module _ {V : Type 0} where
  -- `notification_sender.try_send`: `Downstream::broadcast` and `Downstream::target`. The hub's
  -- forwarder holds the receiver for as long as the server runs, so the channel is never closed.
  unfoldable pub notify :
      UpdateChannelMessage V
      → List (UpdateChannelMessage V)
      → Result (Unit {0}) (UpdateChannelMessage V) × List (UpdateChannelMessage V)
  notify msg queue =
      if ltb (length queue) channel_capacity then (ok tt, queue ++ (msg ∷ [])) else (err msg, queue)

  -- `if let Ok(mut room) = room_arc.write() { if !room.loaded { return … } … }`: nothing is
  -- changed where the lock is poisoned.
  unfoldable pub edit_lock :
      ℕ → (RoomState V → RoomState V) → AppState V → Option (RwLock (RoomState V)) → Edited V
  unfolding put_room
  edit_lock room_id change app none = absent
  edit_lock room_id change app (some lock) =
      if lock.poisoned
      then edited app
      else if not lock.content.loaded
      then not_loaded
      else edited (put_room room_id (change lock.content) app)

  unfoldable pub edit_room : ℕ → (RoomState V → RoomState V) → AppState V → Edited V
  unfolding get edit_lock
  edit_room room_id change app = edit_lock room_id change app (get room_id app.rooms)

module _ {D C : Type 0} (open_db : ℕ → Result D String) where
  -- `if let Some(rp) = self.persistence.room(room_id) { … }`: an error is only logged.
  unfoldable pub in_room_db :
      (room_id : ℕ) → Action D C (Unit {0}) → PersistenceManager D C → PersistenceManager D C
  unfolding get_room_db insert
  in_room_db room_id action pm = elim (get_room_db room_id pm) [
    | none ↦ pm
    | some db ↦
        let after = (action (record { db = db; bucket_cache = pm.bucket_cache })).1 in
        record pm { dbs = insert room_id after.db pm.dbs; bucket_cache = after.bucket_cache }
  ]

  -- The store is opened, if need be, and the action is done.
  unfoldable pub persist_in :
      (room_id : ℕ) → Action D C (Unit {0}) → PersistenceManager D C → PersistenceManager D C
  unfolding open_room_db in_room_db
  persist_in room_id action pm = in_room_db room_id action ((open_room_db open_db room_id pm).1)

  module _ {V : Type 0} where
    -- A command that edits a room and then its store.
    unfoldable pub finish_edit :
        (room_id : ℕ)
        → CommandResponse
        → Action D C (Unit {0})
        → SyncpondKernel V D C
        → Edited V
        → CommandResponse × SyncpondKernel V D C
    unfolding persist_in
    finish_edit room_id response action k absent = (response, k)
    finish_edit room_id response action k not_loaded =
        (load_room_response (err "room_not_loaded"), k)
    finish_edit room_id response action k (edited app) =
        (response, record k { state = app; persistence = persist_in room_id action k.persistence })
