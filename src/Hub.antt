-- ===== src/Hub.antt =====
-- server/crates/sp-downstream/src/hub.rs: the clients that are connected, and who of them
-- subscribes to which bucket.
pub mod Subscriptions
pub mod Kept
pub mod HubInvariant
pub mod Broadcast
pub mod Event
pub mod Sessions
pub mod Forwarding
use syncpond.Base.{
  ℕ, ◌+◌, String, Bool, true, false, not, ◌&&◌, ◌||◌, Option, none, some, List, [], ◌∷◌, ◌++◌,
  Result, ok, err, length, is_empty, leb, unwrap_or, saturating_add, if◌then◌else◌, is_some,
}
use syncpond.Base.Eq.{nat_eq}
use syncpond.Base.HashMap.{HashMap, get, insert, remove}
use syncpond.Base.HashSet
use syncpond.Base.HashSet.{HashSet, contains}
use syncpond.Extern.Json.{Json, Bytes}
use syncpond.Extern.Wire.{Wire, ProtoDataUpdate, Payload, data_update}
use syncpond.Protocol.{
  DataUpdate, UpdateChannelMessage, broadcast, targeted, DownstreamMessage, ws_message,
}

abbrev pub max_ws_clients_per_bucket : ℕ
max_ws_clients_per_bucket = 200

-- The answer of tokio's `Sender::try_send` of a client's channel.
pub data TrySend : Type 0 where
  queued : TrySend
  full : TrySend
  closed : TrySend

-- `S` is the type of a client's sender.
pub record ClientInfo (S : Type 0) : Type 0 where
  pub room_id : ℕ
  pub buckets : HashSet ℕ
  pub sender : S

pub record WsHub (S : Type 0) : Type 0 where
  pub next_conn_id : ℕ
  pub connections : HashMap ℕ (ClientInfo S)
  pub buckets : HashMap ℕ (HashSet ℕ)
  -- whether the receiver of the notifications is still there; what waits in its channel is an
  -- argument of `run_forwarder`
  pub notification_receiver : Option (Unit {0})

-- What was put into the queues of clients, in order, and the hub afterwards.
pub record Sending (S : Type 0) : Type 0 where
  pub removed : Bool
  pub sent : List (ℕ × Bytes)
  pub hub : WsHub S

-- The connections of a bucket.
unfoldable pub clients_at : ℕ → HashMap ℕ (HashSet ℕ) → HashSet ℕ
unfolding get
clients_at b m = unwrap_or (get b m) []

unfoldable pub any_of : (ℕ → Bool) → List ℕ → Bool
any_of p [] = false
any_of p (b ∷ bs) = p b || any_of p bs

-- `self.buckets.entry(*bucket).or_insert_with(HashSet::new).insert(conn_id)`, for each bucket
unfoldable pub subscribe : ℕ → List ℕ → HashMap ℕ (HashSet ℕ) → HashMap ℕ (HashSet ℕ)
unfolding insert HashSet.insert clients_at
subscribe conn_id [] m = m
subscribe conn_id (b ∷ bs) m =
    subscribe conn_id bs (insert b (HashSet.insert conn_id (clients_at b m)) m)

-- The connection leaves one bucket; a bucket without connections is dropped.
unfoldable pub leave : ℕ → ℕ → HashMap ℕ (HashSet ℕ) → HashMap ℕ (HashSet ℕ)
unfolding get insert remove HashSet.remove
leave conn_id b m = elim (get b m) [
  | none ↦ m
  | some set ↦
      let left = HashSet.remove conn_id set in if is_empty left then remove b m else insert b left m
]

unfoldable pub unsubscribe : ℕ → List ℕ → HashMap ℕ (HashSet ℕ) → HashMap ℕ (HashSet ℕ)
unfolding leave
unsubscribe conn_id [] m = m
unsubscribe conn_id (b ∷ bs) m = unsubscribe conn_id bs (leave conn_id b m)

module _ {S : Type 0} where
  unfoldable pub new : WsHub S
  new = record { next_conn_id = 1; connections = []; buckets = []; notification_receiver = some tt }

  unfoldable pub take_notification_receiver : WsHub S → Option (Unit {0}) × WsHub S
  take_notification_receiver hub =
      (hub.notification_receiver, record hub { notification_receiver = none })

  unfoldable pub allocate_connection_id : WsHub S → ℕ × WsHub S
  allocate_connection_id hub =
      (hub.next_conn_id, record hub { next_conn_id = saturating_add hub.next_conn_id 1 })

  -- The bucket has all the connections it may have, and this is none of them.
  unfoldable pub is_full : ℕ → WsHub S → ℕ → Bool
  unfolding get contains
  is_full conn_id hub b = elim (get b hub.buckets) [
    | none ↦ false
    | some set ↦ leb max_ws_clients_per_bucket (length set) && not (contains conn_id set)
  ]

  unfoldable pub add_client :
      (conn_id : ℕ) (room_id : ℕ) (allowed_buckets : HashSet ℕ) (sender : S)
      → WsHub S
      → Result (Unit {0}) String × WsHub S
  unfolding any_of is_full insert subscribe
  add_client conn_id room_id allowed_buckets sender hub =
      if any_of (is_full conn_id hub) allowed_buckets
      then (err "bucket_client_limit_exceeded", hub)
      else (
        ok tt,
        record hub {
          connections =
              insert conn_id
                (record { room_id = room_id; buckets = allowed_buckets; sender = sender })
                hub.connections;
          buckets = subscribe conn_id allowed_buckets hub.buckets;
        },
      )

  unfoldable pub get_client_room_id : ℕ → WsHub S → Option ℕ
  unfolding get
  get_client_room_id conn_id hub = elim (get conn_id hub.connections) [
    | none ↦ none
    | some client ↦ some client.room_id
  ]

  unfoldable pub remove_client : ℕ → WsHub S → WsHub S
  unfolding get remove unsubscribe
  remove_client conn_id hub = elim (get conn_id hub.connections) [
    | none ↦ hub
    | some client ↦ record hub {
      connections = remove conn_id hub.connections;
      buckets = unsubscribe conn_id client.buckets hub.buckets;
    }
  ]

  -- The message that goes to the kernel, if the connection is known.
  unfoldable pub process_client_message : ℕ → Bytes → WsHub S → Option DownstreamMessage
  unfolding get
  process_client_message conn_id msg hub = elim (get conn_id hub.connections) [
    | none ↦ none
    | some client ↦ some (ws_message client.room_id msg)
  ]

module _ {V : Type 0} ⦃J : Json V⦄ ⦃W : Wire⦄ where
  serialized : Option V → Bytes
  serialized none = []
  serialized (some value) = unwrap_or (J.to_vec value) []

  unfoldable pub update_event : DataUpdate V → Bytes
  unfolding serialized
  update_event update = W.encode_to_vec (
      some (
        data_update (record {
          bucket_id = update.bucket_id;
          key = update.key;
          value = serialized update.value;
          bucket_counter = update.bucket_counter;
          deleted = not (is_some update.value);
        })))

  module _ {S : Type 0} (try_send : S → Bytes → TrySend) where
    -- A client whose queue is full or closed is removed.
    unfoldable pub send_targeted_update : ℕ → DataUpdate V → WsHub S → Sending S
    unfolding get remove_client update_event
    send_targeted_update client_id update hub =
        let event = update_event update in
        let gone : Sending S = record {
          removed = true;
          sent = [];
          hub = remove_client client_id hub;
        } in
        elim (get client_id hub.connections) [
          | none ↦ gone
          | some client ↦ elim (try_send client.sender event) [
            | queued ↦ record { removed = false; sent = (client_id, event) ∷ []; hub = hub }
            | full ↦ gone
            | closed ↦ gone
          ]
        ]

    -- `for client_id in recipients.iter() { … }`: what was sent, and the hub afterwards
    unfoldable pub send_each : List ℕ → DataUpdate V → WsHub S → List (ℕ × Bytes) × WsHub S
    unfolding send_targeted_update
    send_each [] update hub = ([], hub)
    send_each (c ∷ cs) update hub =
        let now = send_targeted_update c update hub in
        let rest = send_each cs update now.hub in (now.sent ++ rest.0, rest.1)

    unfoldable pub broadcast_update : DataUpdate V → WsHub S → List (ℕ × Bytes) × WsHub S
    unfolding clients_at send_each
    broadcast_update update hub = send_each (clients_at update.bucket_id hub.buckets) update hub

    -- One message of the channel that `run_forwarder` reads.
    unfoldable pub forward : UpdateChannelMessage V → WsHub S → List (ℕ × Bytes) × WsHub S
    unfolding broadcast_update send_targeted_update
    forward (broadcast update) hub = broadcast_update update hub
    forward (targeted conn_id update) hub =
        let out = send_targeted_update conn_id update hub in (out.sent, out.hub)
