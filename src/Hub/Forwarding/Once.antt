-- ===== src/Hub/Forwarding/Once.antt =====
-- The channel of notifications has one reader.
use syncpond.Base.{
  ℕ, ◌≡◌, ◌∙◌, refl, ap, sym, none, Option-cases, inl, inr, List, [], ◌∷◌, arith, length,
}
use syncpond.Extern.Json.{Json, Bytes}
use syncpond.Extern.Wire.{Wire}
use syncpond.Protocol.{DataUpdate, UpdateChannelMessage, broadcast, targeted}
use syncpond.Hub.{
  WsHub, TrySend, take_notification_receiver, remove_client, clients_at, forward, broadcast_update,
  send_targeted_update, send_each,
}
use syncpond.Hub.Forwarding.{Answers, Turns, run_forwarder, start_downstream}

module _ {S : Type 0} where
  receiver-remove_client :
      (c : ℕ) (hub : WsHub S)
      → (remove_client c hub).notification_receiver ≡ hub.notification_receiver
  unfolding remove_client
  receiver-remove_client c hub = ground arith

-- The turns put no receiver back.
abbrev pub StaysGone : {S : Type 0} → Turns S → Type 0
StaysGone {S} between =
    (n : ℕ) (hub : WsHub S)
    → hub.notification_receiver ≡ none
    → (between n hub).notification_receiver ≡ none

module _ {V S : Type 0} ⦃J : Json V⦄ ⦃W : Wire⦄ where
  receiver-send :
      (try_send : S → Bytes → TrySend) (update : DataUpdate V) (c : ℕ) (hub : WsHub S)
      → (send_targeted_update try_send c update hub).hub.notification_receiver
        ≡ hub.notification_receiver
  unfolding send_targeted_update
  receiver-send try_send update c hub = ground (arith, receiver-remove_client c hub)

  receiver-send_each :
      (try_send : S → Bytes → TrySend) (update : DataUpdate V) (cs : List ℕ) (hub : WsHub S)
      → (send_each try_send cs update hub).1.notification_receiver ≡ hub.notification_receiver
  unfolding send_each
  receiver-send_each try_send update [] hub = refl
  receiver-send_each try_send update (c ∷ cs) hub =
      receiver-send_each try_send update cs ((send_targeted_update try_send c update hub).hub)
      ∙ receiver-send try_send update c hub

  receiver-forward :
      (try_send : S → Bytes → TrySend) (msg : UpdateChannelMessage V) (hub : WsHub S)
      → (forward try_send msg hub).1.notification_receiver ≡ hub.notification_receiver
  unfolding forward broadcast_update
  receiver-forward try_send (broadcast update) hub =
      receiver-send_each try_send update (clients_at update.bucket_id hub.buckets) hub
  receiver-forward try_send (targeted c update) hub =
      ground (arith, receiver-send try_send update c hub)

  gone-run_forwarder :
      (answers : Answers S) (between : Turns S) (rx : List (UpdateChannelMessage V)) (hub : WsHub S)
      → StaysGone between
      → hub.notification_receiver ≡ none
      → (run_forwarder answers between rx hub).1.notification_receiver ≡ none
  unfolding run_forwarder
  gone-run_forwarder answers between [] hub stays gone = gone
  gone-run_forwarder answers between (msg ∷ rx) hub stays gone =
      let turned = between (length rx) hub in
      gone-run_forwarder answers between rx ((forward (answers (length rx)) msg turned).1) stays
        (receiver-forward (answers (length rx)) msg turned ∙ stays (length rx) hub gone)

  receiver_taken :
      (answers : Answers S) (between : Turns S) (rx : List (UpdateChannelMessage V)) (hub : WsHub S)
      → StaysGone between
      → (start_downstream answers between rx hub).1.notification_receiver ≡ none
  unfolding start_downstream take_notification_receiver
  receiver_taken answers between rx hub stays = elim (Option-cases hub.notification_receiver) [
    | inl gone ↦ ground arith
    | inr (_, there) ↦ ground (
      arith,
      gone-run_forwarder answers between rx ((take_notification_receiver hub).1) stays refl,
    )
  ]

  start-taken :
      (answers : Answers S) (between : Turns S) (rx : List (UpdateChannelMessage V)) (hub : WsHub S)
      → hub.notification_receiver ≡ none
      → start_downstream answers between rx hub ≡ ([], hub)
  unfolding start_downstream take_notification_receiver
  start-taken answers between rx hub gone =
      let same : record hub { notification_receiver = none } ≡ hub =
        ap (λ r. record hub { notification_receiver = r }) (sym gone) in
      ground arith

  -- Once a forwarder was started, whatever it has read and whatever turns were taken at the hub's
  -- lock that put no receiver back, a second start sends nothing to any client and leaves the hub
  -- as it is.
  pub start_downstream-twice :
      (answers again : Answers S) (between later : Turns S)
      (rx more : List (UpdateChannelMessage V)) (hub : WsHub S)
      → StaysGone between
      → let first = (start_downstream answers between rx hub).1 in
        start_downstream again later more first ≡ ([], first)
  start_downstream-twice answers again between later rx more hub stays =
      start-taken again later more ((start_downstream answers between rx hub).1)
        (receiver_taken answers between rx hub stays)
