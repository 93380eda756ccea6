-- ===== src/Hub/Sessions.antt =====
-- The hub over time: clients come and go and updates are forwarded, in any order.
use syncpond.Base.{
  ℕ, suc, ◌+◌, ◌≤◌, ◌<◌, String, ◌≡◌, refl, ◌∙◌, false, List, [], ◌∷◌, arith, Result, ok, err,
  length, u64_max, saturating_add, Bool-cases, inl, inr,
}
use syncpond.Base.Eq.{nat_eq}
use syncpond.Base.HashMap.{contains_key}
use syncpond.Base.HashMap.Unique.{Below, Below-mono, Below-contains}
use syncpond.Base.HashSet.{HashSet}
use syncpond.Extern.Json.{Json, Bytes}
use syncpond.Extern.Wire.{Wire}
use syncpond.Protocol.{DataUpdate, UpdateChannelMessage, broadcast, targeted}
use syncpond.Hub.{
  WsHub, TrySend, new, allocate_connection_id, add_client, remove_client, clients_at, forward,
  broadcast_update, send_targeted_update, send_each,
}
use syncpond.Hub.HubInvariant.{HubInv, add_client-HubInv, remove_client-HubInv, new-HubInv}
use syncpond.Hub.Broadcast.{broadcast_update-IsDelivered, send_targeted_update-HubInv}

-- One turn at the hub's lock: the answers of the clients' queues are those of that moment.
pub data Turn (V S : Type 0) : Type 0 where
  registering : (room_id : ℕ) → HashSet ℕ → S → Turn V S
  leaving : (conn_id : ℕ) → Turn V S
  forwarding : (S → Bytes → TrySend) → UpdateChannelMessage V → Turn V S

module _ {S : Type 0} where
  -- The lock that `handle_ws_connection` takes to register a client.
  unfoldable pub register : (room_id : ℕ) → HashSet ℕ → S → WsHub S → Result ℕ String × WsHub S
  unfolding allocate_connection_id add_client
  register room_id allowed sender hub =
      let given = allocate_connection_id hub in
      let added = add_client given.0 room_id allowed sender given.1 in
      (elim added.0 [ ok _ ↦ ok given.0 | err e ↦ err e ], added.1)

  module _ {V : Type 0} ⦃J : Json V⦄ ⦃W : Wire⦄ where
    unfoldable pub turn : Turn V S → WsHub S → WsHub S
    unfolding register remove_client forward
    turn (registering room_id allowed sender) hub = (register room_id allowed sender hub).1
    turn (leaving conn_id) hub = remove_client conn_id hub
    turn (forwarding try_send msg) hub = (forward try_send msg hub).1

    unfoldable pub turns : List (Turn V S) → WsHub S → WsHub S
    unfolding turn
    turns [] hub = hub
    turns (t ∷ ts) hub = turns ts (turn t hub)

  allocated-HubInv :
      (hub : WsHub S)
      → hub.next_conn_id < u64_max
      → HubInv hub
      → HubInv ((allocate_connection_id hub).1)
  unfolding allocate_connection_id
  allocated-HubInv hub bound h = record {
    index = h.index;
    kept = h.kept;
    limit = h.limit;
    distinct = h.distinct;
    fresh =
        Below-mono hub.next_conn_id (saturating_add hub.next_conn_id 1) hub.connections
          (ground arith) h.fresh;
    word = ground arith;
  }

  pub fresh_id :
      (n : ℕ) (hub : WsHub S) → Below n hub.connections → contains_key n hub.connections ≡ false
  fresh_id n hub below = elim (Bool-cases (contains_key n hub.connections)) [
    | inl e ↦ ground (arith, Below-contains n n hub.connections below e)
    | inr e ↦ e
  ]

  pub register-HubInv :
      (room_id : ℕ) (allowed : HashSet ℕ) (sender : S) (hub : WsHub S)
      → hub.next_conn_id < u64_max
      → HubInv hub
      → HubInv ((register room_id allowed sender hub).1)
  unfolding register allocate_connection_id
  register-HubInv room_id allowed sender hub bound h =
      add_client-HubInv hub.next_conn_id room_id allowed sender ((allocate_connection_id hub).1)
        (fresh_id hub.next_conn_id hub h.fresh) (ground arith) (allocated-HubInv hub bound h)

  next_id-add_client :
      (c room_id : ℕ) (allowed : HashSet ℕ) (sender : S) (hub : WsHub S)
      → (add_client c room_id allowed sender hub).1.next_conn_id ≡ hub.next_conn_id
  unfolding add_client
  next_id-add_client c room_id allowed sender hub = ground arith

  next_id-remove_client :
      (c : ℕ) (hub : WsHub S) → (remove_client c hub).next_conn_id ≡ hub.next_conn_id
  unfolding remove_client
  next_id-remove_client c hub = ground arith

  next_id-register :
      (room_id : ℕ) (allowed : HashSet ℕ) (sender : S) (hub : WsHub S)
      → (register room_id allowed sender hub).1.next_conn_id ≤ suc hub.next_conn_id
  unfolding register allocate_connection_id
  next_id-register room_id allowed sender hub = ground (
    arith,
    next_id-add_client hub.next_conn_id room_id allowed sender ((allocate_connection_id hub).1),
  )

module _ {V S : Type 0} ⦃J : Json V⦄ ⦃W : Wire⦄ where
  next_id-send :
      (try_send : S → Bytes → TrySend) (update : DataUpdate V) (c : ℕ) (hub : WsHub S)
      → (send_targeted_update try_send c update hub).hub.next_conn_id ≡ hub.next_conn_id
  unfolding send_targeted_update
  next_id-send try_send update c hub = ground (arith, next_id-remove_client c hub)

  next_id-send_each :
      (try_send : S → Bytes → TrySend) (update : DataUpdate V) (cs : List ℕ) (hub : WsHub S)
      → (send_each try_send cs update hub).1.next_conn_id ≡ hub.next_conn_id
  unfolding send_each
  next_id-send_each try_send update [] hub = refl
  next_id-send_each try_send update (c ∷ cs) hub =
      next_id-send_each try_send update cs ((send_targeted_update try_send c update hub).hub)
      ∙ next_id-send try_send update c hub

  next_id-turn : (t : Turn V S) (hub : WsHub S) → (turn t hub).next_conn_id ≤ suc hub.next_conn_id
  unfolding turn forward broadcast_update
  next_id-turn (registering room_id allowed sender) hub =
      next_id-register room_id allowed sender hub
  next_id-turn (leaving c) hub = ground (arith, next_id-remove_client c hub)
  next_id-turn (forwarding try_send (broadcast update)) hub =
      ground
        (arith, next_id-send_each try_send update (clients_at update.bucket_id hub.buckets) hub)
  next_id-turn (forwarding try_send (targeted c update)) hub =
      ground (arith, next_id-send try_send update c hub)

  turn-HubInv :
      (t : Turn V S) (hub : WsHub S) → hub.next_conn_id < u64_max → HubInv hub → HubInv (turn t hub)
  unfolding turn forward
  turn-HubInv (registering room_id allowed sender) hub bound h =
      register-HubInv room_id allowed sender hub bound h
  turn-HubInv (leaving c) hub bound h = remove_client-HubInv c hub h
  turn-HubInv (forwarding try_send (broadcast update)) hub bound h =
      let delivered = broadcast_update-IsDelivered try_send update hub h in delivered.sound
  turn-HubInv (forwarding try_send (targeted c update)) hub bound h =
      send_targeted_update-HubInv try_send update c hub h

  turns-HubInv :
      (ts : List (Turn V S)) (hub : WsHub S)
      → hub.next_conn_id + length ts ≤ u64_max
      → HubInv hub
      → HubInv (turns ts hub)
  unfolding turns
  turns-HubInv [] hub bound h = h
  turns-HubInv (t ∷ ts) hub bound h =
      let next = next_id-turn t hub in
      turns-HubInv ts (turn t hub) (omega arith) (turn-HubInv t hub (omega arith) h)

  -- After any sequence of fewer than 2 ^ 64 - 1 turns at a new hub, in which clients register and
  -- leave and updates are forwarded to queues that take or refuse them: a connection is in the set
  -- of a bucket exactly when it subscribes to it, no empty set is kept, every set has each
  -- connection once and at most 200 of them, and the next id is above that of every connection.
  pub turns-new-HubInv : (ts : List (Turn V S)) → length ts + 1 ≤ u64_max → HubInv (turns ts new)
  unfolding new
  turns-new-HubInv ts bound = turns-HubInv ts new (omega arith) new-HubInv
