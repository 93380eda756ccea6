-- ===== src/Connection.antt =====
-- server/crates/sp-downstream/src/connection.rs: the handshake of a websocket, and what the loop
-- after it does with a frame. What the library tungstenite received is an argument.
pub mod Handshake
pub mod Opening
pub mod Loop
use syncpond.Base.{
  ℕ, String, ◌≡◌, Bool, true, false, ◌||◌, Option, none, some, List, [], ◌∷◌, Result, ok, err,
  unwrap_or, if◌then◌else◌, ltb, is_empty,
}
use syncpond.Base.Eq.{nat_eq, string_eq, ◌==◌}
use syncpond.Base.HashSet.{HashSet, contains, collect, insert, remove}
use syncpond.Extern.Json.{Bytes}
use syncpond.Extern.Wire.{Wire, Payload, auth, auth_ok, auth_error, client_command}
use syncpond.Protocol.{DownstreamMessage, client_connected}
use syncpond.Hub.{WsHub, process_client_message}
use syncpond.Hub.Sessions.{register}
use syncpond.Auth.{Claims, from_env, validate_jwt}

-- `ws_receiver.next().await`
pub data Received : Type 0 where
  binary : Bytes → Received
  text : Received
  ping : Bytes → Received
  pong : Received
  close : Received
  other : Received
  failed : Received
  ended : Received

-- The `origin` header against the list of allowed origins: an error is its status and body.
unfoldable pub check_origin : (allowed : List String) (origin : Option String) → Result (Unit {0}) ℕ
unfolding contains
check_origin allowed origin =
    if is_empty allowed
    then ok tt
    else elim origin [ none ↦ err 400 | some o ↦ if contains o allowed then ok tt else err 403 ]

-- What the handshake comes to before the hub is asked.
pub data Admission : Type 0 where
  -- an `AuthError` frame is sent, and the connection ends
  refused : (reason detail : String) → Admission
  -- the connection ends with no frame
  dropped : Admission
  admitted : (room_id : ℕ) (allowed_buckets : HashSet ℕ) → Admission

-- The buckets of the claims and bucket 0, without the reserved one.
unfoldable pub allowed_of : (reserved : ℕ) → Option (List ℕ) → HashSet ℕ
unfolding collect insert remove
allowed_of reserved buckets = remove reserved (insert 0 (collect (unwrap_or buckets [])))

-- `Some(id) if id > 0`
unfoldable pub room_claim : Option ℕ → Option ℕ
room_claim none = none
room_claim (some id) = if ltb 0 id then some id else none

unfoldable pub admit_claims : (reserved : ℕ) → Claims → Admission
unfolding allowed_of room_claim
admit_claims reserved claims = elim (room_claim claims.room_id) [
  | none ↦ refused "invalid_jwt_missing_room_id" "token missing room_id claim"
  | some id ↦ admitted id (allowed_of reserved claims.buckets)
]

module _ (env : String → Option String) (decode : String → String → Result Claims String) (now : ℕ)
    (reserved : ℕ) where
  unfoldable pub authenticate : (jwt : String) → Admission
  unfolding from_env validate_jwt admit_claims
  authenticate jwt = elim (from_env env) [
    | err e ↦ dropped
    | ok config ↦ elim (validate_jwt decode now config jwt) [
      | err reason ↦ refused "invalid_jwt" reason
      | ok claims ↦ admit_claims reserved claims
    ]
  ]

  unfoldable pub admit_payload : Option Payload → Admission
  unfolding authenticate
  admit_payload (some (auth jwt last_seen_counter)) = authenticate jwt
  admit_payload p = refused "missing_auth" "expected Auth payload in first frame"

  module _ ⦃W : Wire⦄ where
    -- The answer to the first frame.
    unfoldable pub first_frame : Received → Admission
    unfolding admit_payload
    first_frame (binary bin) = elim (W.decode bin) [
      | none ↦ refused "invalid_auth_frame" "failed to decode protobuf auth message"
      | some p ↦ admit_payload p
    ]
    first_frame failed = dropped
    first_frame ended = dropped
    first_frame r = refused "invalid_auth_message" "expected binary protobuf authentication frame"

-- What a handshake leaves: the frames for the client, whether its socket takes them or not, the
-- message for the kernel, the id when the client is connected, and the hub.
pub record Opened (S : Type 0) : Type 0 where
  pub frames : List Payload
  pub event : Option DownstreamMessage
  pub conn_id : Option ℕ
  pub hub : WsHub S

-- `delivered`: the frame `AuthOk` could be written to the socket. `told`: the channel to the kernel
-- takes `ClientConnected`; where it is full, `try_send(…).ok()` drops the message.
unfoldable pub finish_handshake :
    {S : Type 0} (delivered told : Bool) (sender : S) → Admission → WsHub S → Opened S
unfolding register
finish_handshake delivered told sender (refused reason detail) hub = record {
  frames = auth_error reason detail ∷ [];
  event = none;
  conn_id = none;
  hub = hub;
}
finish_handshake delivered told sender dropped hub = record {
  frames = [];
  event = none;
  conn_id = none;
  hub = hub;
}
finish_handshake false told sender (admitted room_id allowed) hub = record {
  frames = [];
  event = none;
  conn_id = none;
  hub = hub;
}
finish_handshake true told sender (admitted room_id allowed) hub =
    let added = register room_id allowed sender hub in
    elim added.0 [
      | err reason ↦ record {
        frames = auth_ok 0 ∷ auth_error "client_add_failed" reason ∷ [];
        event = none;
        conn_id = none;
        hub = added.1;
      }
      | ok conn_id ↦ record {
        frames = auth_ok 0 ∷ [];
        event = if told then some (client_connected conn_id allowed) else none;
        conn_id = some conn_id;
        hub = added.1;
      }
    ]

-- One frame of the loop: the loop ends, or a frame goes back, or a message goes to the kernel.
pub data Reaction : Type 0 where
  ends : Reaction
  ignored : Reaction
  pongs : Bytes → Reaction
  replies : Payload → Reaction
  sends : Option DownstreamMessage → Reaction

module _ {S : Type 0} ⦃W : Wire⦄ where
  unfoldable pub react : (conn_id : ℕ) → WsHub S → Received → Reaction
  unfolding process_client_message
  react conn_id hub (ping payload) = pongs payload
  react conn_id hub pong = ignored
  react conn_id hub close = ends
  react conn_id hub text =
      replies (auth_error "unsupported_message_format" "text frames are not supported after auth")
  react conn_id hub (binary bin) = elim (W.decode bin) [
    | none ↦ replies (auth_error "invalid_frame" "failed to decode protobuf frame")
    | some p ↦ elim p [
      | some (client_command payload) ↦ sends (process_client_message conn_id payload hub)
      | _ ↦ ignored
    ]
  ]
  react conn_id hub other = ignored
  react conn_id hub failed = ends
  react conn_id hub ended = ends
