-- ===== src/Kernel/Reachable.antt =====
-- The kernel over time, server/crates/sp-kernel/src/kernel.rs: the commands of the service, the
-- messages of the downstream processor and the forwarder's reads of the channel, in any order.
pub mod Edits
pub mod Channel
pub mod Invariant
pub mod Loads
pub mod Runs
use syncpond.Base.{ℕ, String, Option, List, [], ◌∷◌, Result}
use syncpond.Extern.Json.{Json, Bytes}
use syncpond.Extern.Rocks.{Rocks, Lru, Serde}
use syncpond.Protocol.{
  Commands, CommandResponse, ws_message_ack, UpdateChannelMessage, DownstreamMessage,
  client_connected, client_disconnected, ws_message,
}
use syncpond.State.Tokens.{JwtClaims, create_room_token}
use syncpond.Persistence.{BucketRecord, BucketRecords}
use syncpond.Hub.{WsHub}
use syncpond.Kernel.{SyncpondKernel}
use syncpond.Kernel.Commands.{handle_command}
use syncpond.Kernel.Writing.{parse_value, set_value, persist_value, announce_value}
use syncpond.Kernel.Loading.{kernel_delete_room}
use syncpond.Kernel.InitialSync.{handle_client_connected}

unfoldable pub without_first :
    {V : Type 0} → List (UpdateChannelMessage V) → List (UpdateChannelMessage V)
without_first [] = []
without_first (msg ∷ queue) = queue

module _ {V D C : Type 0} where
  -- `handle_ws_message`: the message is acknowledged, and nothing else.
  unfoldable pub handle_ws_message :
      (room_id : ℕ) (msg : Bytes) → SyncpondKernel V D C → CommandResponse × SyncpondKernel V D C
  handle_ws_message room_id msg k = (ws_message_ack, k)

  -- One round of the loop of `start_downstream_message_processor`; `hub` is the hub at that time.
  unfoldable pub process_message :
      {S : Type 0} ⦃J : Json V⦄
      → WsHub S
      → DownstreamMessage
      → SyncpondKernel V D C
      → SyncpondKernel V D C
  unfolding handle_client_connected handle_ws_message
  process_message hub (client_connected conn_id requested_buckets) k =
      handle_client_connected conn_id requested_buckets hub k
  process_message hub (client_disconnected conn_id) k = k
  process_message hub (ws_message room_id msg) k = (handle_ws_message room_id msg k).1

  -- `rx.recv()` of the hub's forwarder.
  unfoldable pub take_notification : SyncpondKernel V D C → SyncpondKernel V D C
  unfolding without_first
  take_notification k = record k { notifications = without_first k.notifications }

-- What happens at the kernel. A WriteFragment comes as one command or as its steps under their
-- locks, in any order with all else: `setting`, `persisting` and `announcing`, which has the version
-- that was read before. `S` is the type of a client's sender.
pub data Event (S : Type 0) : Type 0 where
  commanded : Commands → Event S
  deleting : (room_id : ℕ) → Event S
  issuing :
      (encode : JwtClaims → String → Option String) (clock room_id : ℕ) (sub : String)
      (buckets : List ℕ)
      → Event S
  notified : WsHub S → DownstreamMessage → Event S
  setting : (room_id bucket_id : ℕ) (key : String) (bytes : Bytes) → Event S
  persisting : (room_id bucket_id : ℕ) (key : String) (bytes : Bytes) → Event S
  announcing : (bucket_id : ℕ) (key : String) (bytes : Bytes) (room_counter : ℕ) → Event S
  forwarded : Event S

module _ {V D C S : Type 0} ⦃J : Json V⦄ ⦃R : Rocks D⦄ ⦃L : Lru BucketRecords C⦄
    ⦃I : Serde (List ℕ)⦄ ⦃M : Serde (List String)⦄ ⦃B : Serde BucketRecord⦄
    (open_db : ℕ → Result D String) (from_utf8_lossy : Bytes → String) where
  unfoldable pub event : Event S → SyncpondKernel V D C → SyncpondKernel V D C
  unfolding handle_command kernel_delete_room create_room_token process_message take_notification
      set_value persist_value announce_value parse_value
  event (commanded command) k = (handle_command open_db from_utf8_lossy command k).1
  event (deleting room_id) k = (kernel_delete_room room_id k).1
  event (issuing encode clock room_id sub buckets) k = record k {
    state = (create_room_token encode clock room_id sub buckets k.state).0;
  }
  event (notified hub message) k = process_message hub message k
  event (setting room_id bucket_id key bytes) k =
      set_value room_id bucket_id key (parse_value from_utf8_lossy bytes) k
  event (persisting room_id bucket_id key bytes) k =
      persist_value open_db room_id bucket_id key (parse_value from_utf8_lossy bytes) k
  event (announcing bucket_id key bytes room_counter) k =
      announce_value bucket_id key (parse_value from_utf8_lossy bytes) room_counter k
  event forwarded k = take_notification k

  unfoldable pub events : List (Event S) → SyncpondKernel V D C → SyncpondKernel V D C
  unfolding event
  events [] k = k
  events (e ∷ es) k = events es (event e k)
