-- ===== src/Hub/Broadcast.antt =====
-- Whom `broadcast_update` reaches, and what becomes of the others.
use syncpond.Base.{
  ℕ, ◌≡◌, refl, Bool, true, false, not, ◌&&◌, none, some, List, [], ◌∷◌, arith, if◌then◌else◌,
}
use syncpond.Base.Eq.{nat_eq, ◌==◌, ==_iff}
use syncpond.Base.HashMap.{get, get-remove, keys}
use syncpond.Base.HashSet.{contains}
use syncpond.Base.HashSet.Distinct.{IsDistinct}
use syncpond.Extern.Json.{Json, Bytes}
use syncpond.Extern.Wire.{Wire}
use syncpond.Protocol.{DataUpdate}
use syncpond.Hub.{
  WsHub, TrySend, queued, full, closed, clients_at, remove_client, update_event,
  send_targeted_update, send_each, broadcast_update,
}
use syncpond.Hub.HubInvariant.{HubInv, is_subscribed, remove_client-HubInv}

-- Everything that was sent is the event `a`.
abbrev pub AllSame : Bytes → List (ℕ × Bytes) → Type 0
AllSame a [] = Unit {0}
AllSame a ((c, x) ∷ l) = (x ≡ a) × AllSame a l

module _ {S : Type 0} where
  pub get-remove_client :
      (c j : ℕ) (hub : WsHub S)
      → get j (remove_client c hub).connections ≡ (if c == j then none else get j hub.connections)
  unfolding remove_client
  get-remove_client c j hub = ground (arith, get-remove c j hub.connections, ==_iff c j)

module _ {V S : Type 0} ⦃J : Json V⦄ ⦃W : Wire⦄ (try_send : S → Bytes → TrySend) where
  -- The connection exists, and its queue takes the event.
  abbrev pub takes : DataUpdate V → ℕ → WsHub S → Bool
  takes update c hub = elim (get c hub.connections) [
    | none ↦ false
    | some client ↦ elim (try_send client.sender (update_event update)) [
      | queued ↦ true
      | full ↦ false
      | closed ↦ false
    ]
  ]

  get-send :
      (update : DataUpdate V) (c j : ℕ) (hub : WsHub S)
      → get j (send_targeted_update try_send c update hub).hub.connections
        ≡ (if c == j && not (takes update c hub) then none else get j hub.connections)
  unfolding send_targeted_update
  get-send update c j hub = ground (arith, get-remove_client c j hub, ==_iff c j)

  sent-send :
      (update : DataUpdate V) (c : ℕ) (hub : WsHub S)
      → (send_targeted_update try_send c update hub).sent
        ≡ (if takes update c hub then (c, update_event update) ∷ [] else [])
  unfolding send_targeted_update
  sent-send update c hub = ground arith

  takes-send :
      (update : DataUpdate V) (c j : ℕ) (hub : WsHub S)
      → takes update j ((send_targeted_update try_send c update hub).hub) ≡ takes update j hub
  takes-send update c j hub = ground (arith, get-send update c j hub, ==_iff c j)

  get-send_each :
      (update : DataUpdate V) (cs : List ℕ) (j : ℕ) (hub : WsHub S)
      → get j (send_each try_send cs update hub).1.connections
        ≡ (if contains j cs && not (takes update j hub) then none else get j hub.connections)
  unfolding send_each contains
  get-send_each update [] j hub = refl
  get-send_each update (c ∷ cs) j hub =
      let hub1 = (send_targeted_update try_send c update hub).hub in
      ground (
        arith,
        get-send_each update cs j hub1,
        takes-send update c j hub,
        get-send update c j hub,
        ==_iff c j,
      )

  pub send_targeted_update-HubInv :
      (update : DataUpdate V) (c : ℕ) (hub : WsHub S)
      → HubInv hub
      → HubInv ((send_targeted_update try_send c update hub).hub)
  unfolding send_targeted_update
  send_targeted_update-HubInv update c hub h = ground (arith, remove_client-HubInv c hub h)

  send_each-HubInv :
      (update : DataUpdate V) (cs : List ℕ) (hub : WsHub S)
      → HubInv hub
      → HubInv ((send_each try_send cs update hub).1)
  unfolding send_each
  send_each-HubInv update [] hub h = h
  send_each-HubInv update (c ∷ cs) hub h =
      send_each-HubInv update cs ((send_targeted_update try_send c update hub).hub)
        (send_targeted_update-HubInv update c hub h)

  -- What one step sends, put before what the others send.
  sent-send_each :
      (update : DataUpdate V) (c : ℕ) (cs : List ℕ) (hub : WsHub S)
      → (send_each try_send (c ∷ cs) update hub).0 ≡ (
          let rest =
            (send_each try_send cs update ((send_targeted_update try_send c update hub).hub)).0 in
          if takes update c hub then (c, update_event update) ∷ rest else rest)
  unfolding send_each
  sent-send_each update c cs hub = ground (arith, sent-send update c hub)

  contains-sent :
      (update : DataUpdate V) (cs : List ℕ) (j : ℕ) (hub : WsHub S)
      → contains j (keys ((send_each try_send cs update hub).0))
        ≡ (contains j cs && takes update j hub)
  unfolding contains send_each
  contains-sent update [] j hub = refl
  contains-sent update (c ∷ cs) j hub =
      let hub1 = (send_targeted_update try_send c update hub).hub in
      ground (
        arith,
        sent-send_each update c cs hub,
        contains-sent update cs j hub1,
        takes-send update c j hub,
        ==_iff c j,
      )

  sent-AllSame :
      (update : DataUpdate V) (cs : List ℕ) (hub : WsHub S)
      → AllSame (update_event update) ((send_each try_send cs update hub).0)
  unfolding send_each
  sent-AllSame update [] hub = tt
  sent-AllSame update (c ∷ cs) hub =
      let hub1 = (send_targeted_update try_send c update hub).hub in
      ground (arith, sent-send update c hub, sent-AllSame update cs hub1)

  sent-IsDistinct :
      (update : DataUpdate V) (cs : List ℕ) (hub : WsHub S)
      → IsDistinct cs
      → IsDistinct (keys ((send_each try_send cs update hub).0))
  unfolding send_each
  sent-IsDistinct update [] hub d = tt
  sent-IsDistinct update (c ∷ cs) hub d =
      let hub1 = (send_targeted_update try_send c update hub).hub in
      ground (
        arith,
        sent-send update c hub,
        sent-IsDistinct update cs hub1 d.1,
        contains-sent update cs c hub1,
      )

  -- What the result of a broadcast is, of a hub where the invariant holds.
  pub record IsDelivered (update : DataUpdate V) (hub : WsHub S) (sent : List (ℕ × Bytes))
      (hub1 : WsHub S) : Type 0 where
    pub same : AllSame (update_event update) sent
    pub once : IsDistinct (keys sent)
    pub reached :
        (c : ℕ)
        → contains c (keys sent) ≡ (is_subscribed c update.bucket_id hub && takes update c hub)
    pub kept :
        (c : ℕ)
        → get c hub1.connections ≡ (
            if is_subscribed c update.bucket_id hub && not (takes update c hub)
            then none
            else get c hub.connections)
    pub sound : HubInv hub1

  -- In a hub whose invariant holds, a broadcast puts the event of the update, and nothing else,
  -- once into the queue of every client that subscribes to the update's bucket and whose queue
  -- takes it, whatever the client's room, and into no other; the subscribers whose queue is full
  -- or closed are removed, the other connections stay as they are, and the invariant holds.
  pub broadcast_update-IsDelivered :
      (update : DataUpdate V) (hub : WsHub S)
      → HubInv hub
      → IsDelivered update hub
          ((broadcast_update try_send update hub).0)
          ((broadcast_update try_send update hub).1)
  unfolding broadcast_update
  broadcast_update-IsDelivered update hub h =
      let cs = clients_at update.bucket_id hub.buckets in
      record {
        same = sent-AllSame update cs hub;
        once = sent-IsDistinct update cs hub (h.distinct update.bucket_id);
        reached = λ c. ground (arith, contains-sent update cs c hub, h.index c update.bucket_id);
        kept = λ c. ground (arith, get-send_each update cs c hub, h.index c update.bucket_id);
        sound = send_each-HubInv update cs hub h;
      }
