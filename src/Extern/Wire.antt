-- ===== src/Extern/Wire.antt =====
-- The frames of server/crates/sp-downstream/proto/downstream.proto, and the crate prost, which
-- turns them to bytes and back.
use Prim.Native.Nat.{ℕ}
use Prim.Native.String.{String}
use mathlib.Core.Path.{◌≡◌}
use mathlib.Core.Bool.{Bool}
use mathlib.Core.Option.{Option, some}
use syncpond.Extern.Json.{Bytes}

-- `message DataUpdate`
pub record ProtoDataUpdate : Type 0 where
  pub bucket_id : ℕ
  pub key : String
  pub value : Bytes
  pub bucket_counter : ℕ
  pub deleted : Bool

-- `oneof payload`
pub data Payload : Type 0 where
  auth : (jwt : String) (last_seen_counter : ℕ) → Payload
  auth_ok : (room_counter : ℕ) → Payload
  auth_error : (reason detail : String) → Payload
  data_update : ProtoDataUpdate → Payload
  client_command : (payload : Bytes) → Payload

-- `WsEnvelope::encode_to_vec`, and `WsEnvelope::decode`
pub record Wire : Type 0 where
  pub encode_to_vec : Option Payload → Bytes
  pub decode : Bytes → Option (Option Payload)
  -- What was encoded is decoded.
  pub decode-encode_to_vec : (p : Option Payload) → decode (encode_to_vec p) ≡ some p
