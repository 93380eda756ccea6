-- ===== src/Protocol.antt =====
-- server/crates/sp-protocol/src/lib.rs: the messages between the components.
use syncpond.Base.{ℕ, String, Option, List, Result}
use syncpond.Extern.Json.{Bytes}

abbrev pub RoomName : Type 0
RoomName = String

abbrev pub RoomId : Type 0
RoomId = ℕ

abbrev pub BucketId : Type 0
BucketId = ℕ

abbrev pub FragmentData : Type 0
FragmentData = Bytes

-- An update of one key of a bucket, for the clients that subscribe to the bucket.
pub record DataUpdate (V : Type 0) : Type 0 where
  pub bucket_id : ℕ
  pub key : String
  pub value : Option V
  pub bucket_counter : ℕ

pub data UpdateChannelMessage (V : Type 0) : Type 0 where
  broadcast : DataUpdate V → UpdateChannelMessage V
  targeted : (conn_id : ℕ) → DataUpdate V → UpdateChannelMessage V

pub data DownstreamMessage : Type 0 where
  client_connected : (conn_id : ℕ) → (requested_buckets : List ℕ) → DownstreamMessage
  client_disconnected : (conn_id : ℕ) → DownstreamMessage
  ws_message : RoomId → Bytes → DownstreamMessage

pub data Commands : Type 0 where
  new_room : RoomName → Commands
  new_bucket : RoomId → BucketId → String → Commands
  delete_bucket : RoomId → BucketId → Commands
  new_member : RoomId → String → Commands
  delete_member : RoomId → String → Commands
  write_fragment : RoomId → BucketId → String → FragmentData → Commands
  read_fragment : RoomId → BucketId → String → Commands
  load_room : RoomId → Commands
  unload_room : RoomId → Commands

pub data CommandResponse : Type 0 where
  new_room_response : RoomId → CommandResponse
  new_bucket_response : CommandResponse
  delete_bucket_response : CommandResponse
  new_member_response : CommandResponse
  delete_member_response : CommandResponse
  fragment_write_response : CommandResponse
  fragment_read_response : Option FragmentData → CommandResponse
  load_room_response : Result (Unit {0}) String → CommandResponse
  unload_room_response : Result (Unit {0}) String → CommandResponse
  ws_message_ack : CommandResponse
