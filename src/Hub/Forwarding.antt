-- ===== src/Hub/Forwarding.antt =====
-- `run_forwarder`, server/crates/sp-downstream/src/hub.rs: the messages of the channel, in order.
pub mod Once
use syncpond.Base.{ℕ, suc, ◌≡◌, refl, ap, none, some, List, [], ◌∷◌, ◌++◌, length}
use mathlib.Core.List.{append_assoc, append-nil}
use syncpond.Extern.Json.{Json, Bytes}
use syncpond.Extern.Wire.{Wire}
use syncpond.Protocol.{UpdateChannelMessage, broadcast, targeted}
use syncpond.Hub.{WsHub, TrySend, take_notification_receiver, forward}
use syncpond.Hub.HubInvariant.{HubInv}
use syncpond.Hub.Broadcast.{broadcast_update-IsDelivered, send_targeted_update-HubInv}

-- How the queues of the clients answer, by the number of messages that are still to come.
abbrev pub Answers : Type 0 → Type 0
Answers S = ℕ → S → Bytes → TrySend

pub length-append_one {ℓ} :
    {A : Type ℓ} (xs : List A) (x : A) → length (xs ++ x ∷ []) ≡ suc (length xs)
length-append_one [] x = refl
length-append_one (y ∷ xs) x = ap suc (length-append_one xs x)

-- The turns of others at the hub's lock before each message, by the same number.
abbrev pub Turns : Type 0 → Type 0
Turns S = ℕ → WsHub S → WsHub S

-- The turns keep the invariant of the hub.
abbrev pub KeepsInv : {S : Type 0} → Turns S → Type 0
KeepsInv {S} between = (n : ℕ) (hub : WsHub S) → HubInv hub → HubInv (between n hub)

module _ {V S : Type 0} ⦃J : Json V⦄ ⦃W : Wire⦄ where
  -- What was sent to clients, in order, and the hub afterwards.
  unfoldable pub run_forwarder :
      Answers S → Turns S → List (UpdateChannelMessage V) → WsHub S → List (ℕ × Bytes) × WsHub S
  unfolding forward
  run_forwarder answers between [] hub = ([], hub)
  run_forwarder answers between (msg ∷ rx) hub =
      let now = forward (answers (length rx)) msg (between (length rx) hub) in
      let rest = run_forwarder answers between rx now.1 in (now.0 ++ rest.0, rest.1)

  -- `start_downstream`, server/crates/sp-downstream/src/server.rs: a forwarder runs where the
  -- receiver has not been taken before.
  unfoldable pub start_downstream :
      Answers S → Turns S → List (UpdateChannelMessage V) → WsHub S → List (ℕ × Bytes) × WsHub S
  unfolding take_notification_receiver run_forwarder
  start_downstream answers between rx hub =
      let taken = take_notification_receiver hub in
      elim taken.0 [ none ↦ ([], taken.1) | some _ ↦ run_forwarder answers between rx taken.1 ]

  forward-HubInv :
      (try_send : S → Bytes → TrySend) (msg : UpdateChannelMessage V) (hub : WsHub S)
      → HubInv hub
      → HubInv ((forward try_send msg hub).1)
  unfolding forward
  forward-HubInv try_send (broadcast update) hub h =
      let delivered = broadcast_update-IsDelivered try_send update hub h in delivered.sound
  forward-HubInv try_send (targeted c update) hub h =
      send_targeted_update-HubInv try_send update c hub h

  pub run_forwarder-HubInv :
      (answers : Answers S) (between : Turns S) (rx : List (UpdateChannelMessage V)) (hub : WsHub S)
      → KeepsInv between
      → HubInv hub
      → HubInv ((run_forwarder answers between rx hub).1)
  unfolding run_forwarder
  run_forwarder-HubInv answers between [] hub keeps h = h
  run_forwarder-HubInv answers between (msg ∷ rx) hub keeps h =
      run_forwarder-HubInv answers between rx _ keeps (
        forward-HubInv (answers (length rx)) msg (between (length rx) hub)
          (keeps (length rx) hub h))

  -- The last message is forwarded after all the others.
  pub run_forwarder-append_one :
      (answers : Answers S) (between : Turns S) (rx : List (UpdateChannelMessage V))
      (msg : UpdateChannelMessage V) (hub : WsHub S)
      → let before = run_forwarder (λ n. answers (suc n)) (λ n. between (suc n)) rx hub in
        let last = forward (answers 0) msg (between 0 before.1) in
        run_forwarder answers between (rx ++ msg ∷ []) hub ≡ (before.0 ++ last.0, last.1)
  unfolding run_forwarder
  run_forwarder-append_one answers between [] msg hub = simp append-nil
  run_forwarder-append_one answers between (m ∷ rx) msg hub =
      let now = forward (answers (suc (length rx))) m (between (suc (length rx)) hub) in
      rw (length-append_one rx msg)
        (rw (run_forwarder-append_one answers between rx msg now.1) (rw append_assoc refl))
