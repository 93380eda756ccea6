-- ===== src/Connection/Loop/Rounds.antt =====
-- One round of the loop of a connection: whether it ends the loop, and what it sends.
use syncpond.Base.{
  ℕ, ◌≡◌, refl, Bool, true, false, not, ◌||◌, Option, none, some, List, [], ◌∷◌, ◌++◌, arith,
  if◌then◌else◌, Option-cases, inl, inr, ◌⊎◌,
}
use syncpond.Base.Eq.{nat_eq}
use syncpond.Base.HashMap.{get}
use syncpond.Extern.Json.{Bytes}
use syncpond.Extern.Wire.{Wire, Payload, auth, auth_ok, auth_error, data_update, client_command}
use syncpond.Protocol.{DownstreamMessage, ws_message}
use syncpond.Hub.{WsHub, get_client_room_id, process_client_message}
use syncpond.Connection.{
  Received, binary, text, ping, pong, close, other, failed, ended, react, Reaction, ignored,
  replies, sends,
}
use syncpond.Connection.Loop.{
  Incoming, from_client, from_queue, Round, Outgoing, take, follow, send_some,
}

-- The loop ends at this: the client closed or is gone, or its queue is, or an event of the queue
-- cannot be written.
abbrev pub is_last_frame : Received → Bool
is_last_frame close = true
is_last_frame failed = true
is_last_frame ended = true
is_last_frame r = false

abbrev pub is_last : Bool → Incoming → Bool
is_last delivered (from_client frame) = is_last_frame frame
is_last delivered (from_queue none) = true
is_last delivered (from_queue (some event)) = not delivered

module _ {S : Type 0} where
  abbrev pub has_last : List (Round S) → Bool
  has_last [] = false
  has_last (round ∷ rounds) = is_last round.delivered round.incoming || has_last rounds

  -- The rounds that are taken: those before the first that ends the loop, and that one.
  abbrev pub to_first_last : List (Round S) → List (Round S)
  to_first_last [] = []
  to_first_last (round ∷ rounds) =
      round ∷ (if is_last round.delivered round.incoming then [] else to_first_last rounds)

  -- In every round, the hub has the connection in this room, or does not have it.
  abbrev pub InRoom : ℕ → ℕ → List (Round S) → Type 0
  InRoom c room [] = Unit {0}
  InRoom c room (round ∷ rounds) =
      ((get_client_room_id c round.hub ≡ some room) ⊎ (get_client_room_id c round.hub ≡ none))
      × InRoom c room rounds

-- All are messages of clients to this room.
abbrev pub AllFor : ℕ → List DownstreamMessage → Type 0
AllFor room [] = Unit {0}
AllFor room (message ∷ messages) =
    ((payload : Bytes) × (message ≡ ws_message room payload)) × AllFor room messages

pub AllFor-append :
    (room : ℕ) (xs ys : List DownstreamMessage)
    → AllFor room xs
    → AllFor room ys
    → AllFor room (xs ++ ys)
AllFor-append room [] ys all_xs all_ys = all_ys
AllFor-append room (x ∷ xs) ys (is_x, all_xs) all_ys =
    (is_x, AllFor-append room xs ys all_xs all_ys)

module _ {S : Type 0} ⦃W : Wire⦄ (c : ℕ) where
  -- What these rounds write to the client, one after the other
  abbrev pub all_written : List (Round S) → List Outgoing
  all_written [] = []
  all_written (round ∷ rounds) =
      (take c round.delivered round.hub round.incoming).written ++ all_written rounds

  -- What these rounds send to the kernel, one after the other
  abbrev pub all_sent : List (Round S) → List DownstreamMessage
  all_sent [] = []
  all_sent (round ∷ rounds) =
      (take c round.delivered round.hub round.incoming).sent ++ all_sent rounds

  -- The reaction to a frame with bytes
  abbrev IsAnswer : WsHub S → Reaction → Type 0
  IsAnswer hub r =
      (r ≡ ignored)
      ⊎ (((p : Payload) × (r ≡ replies p))
          ⊎ ((payload : Bytes) × (r ≡ sends (process_client_message c payload hub))))

  react_decoded :
      (hub : WsHub S) (bin : Bytes) (o : Option (Option Payload))
      → W.decode bin ≡ o
      → IsAnswer hub (react c hub (binary bin))
  unfolding react
  react_decoded hub bin none e =
      inr (inl (auth_error "invalid_frame" "failed to decode protobuf frame", rw (e, react) refl))
  react_decoded hub bin (some none) e = inl (rw (e, react) refl)
  react_decoded hub bin (some (some (auth jwt n))) e = inl (rw (e, react) refl)
  react_decoded hub bin (some (some (auth_ok n))) e = inl (rw (e, react) refl)
  react_decoded hub bin (some (some (auth_error reason detail))) e = inl (rw (e, react) refl)
  react_decoded hub bin (some (some (data_update update))) e = inl (rw (e, react) refl)
  react_decoded hub bin (some (some (client_command payload))) e =
      inr (inr (payload, rw (e, react) refl))

  sent_to :
      (room : ℕ) (hub : WsHub S) (payload : Bytes)
      → (get_client_room_id c hub ≡ some room) ⊎ (get_client_room_id c hub ≡ none)
      → AllFor room (send_some (process_client_message c payload hub))
  unfolding send_some get_client_room_id process_client_message
  sent_to room hub payload known = elim (Option-cases (get c hub.connections)) [
    | inl none_there ↦
        let nothing : process_client_message c payload hub ≡ none = ground arith in rw nothing tt
    | inr (client, there) ↦
        let in_room : client.room_id ≡ room = ground arith in
        let one : process_client_message c payload hub ≡ some (ws_message room payload) =
          ground arith in
        rw one ((payload, refl), tt)
  ]

  -- Whether a round ends the loop
  pub take_last :
      (delivered : Bool) (hub : WsHub S) (i : Incoming)
      → (take c delivered hub i).ended ≡ is_last delivered i
  unfolding take follow react
  take_last delivered hub (from_queue none) = refl
  take_last delivered hub (from_queue (some event)) = refl
  take_last delivered hub (from_client close) = refl
  take_last delivered hub (from_client text) = refl
  take_last delivered hub (from_client (ping payload)) = refl
  take_last delivered hub (from_client pong) = refl
  take_last delivered hub (from_client other) = refl
  take_last delivered hub (from_client failed) = refl
  take_last delivered hub (from_client ended) = refl
  take_last delivered hub (from_client (binary bin)) =
      elim (react_decoded hub bin (W.decode bin) refl) [
        | inl e ↦ rw e refl
        | inr (inl (p, e)) ↦ rw e refl
        | inr (inr (payload, e)) ↦ rw e refl
      ]

  -- What a round sends to the kernel is a message to the room that the hub knows.
  pub take_sent :
      (room : ℕ) (delivered : Bool) (hub : WsHub S) (i : Incoming)
      → (get_client_room_id c hub ≡ some room) ⊎ (get_client_room_id c hub ≡ none)
      → AllFor room (take c delivered hub i).sent
  unfolding take follow react
  take_sent room delivered hub (from_queue none) known = tt
  take_sent room delivered hub (from_queue (some event)) known = tt
  take_sent room delivered hub (from_client close) known = tt
  take_sent room delivered hub (from_client text) known = tt
  take_sent room delivered hub (from_client (ping payload)) known = tt
  take_sent room delivered hub (from_client pong) known = tt
  take_sent room delivered hub (from_client other) known = tt
  take_sent room delivered hub (from_client failed) known = tt
  take_sent room delivered hub (from_client ended) known = tt
  take_sent room delivered hub (from_client (binary bin)) known =
      elim (react_decoded hub bin (W.decode bin) refl) [
        | inl e ↦ rw e tt
        | inr (inl (p, e)) ↦ rw e tt
        | inr (inr (payload, e)) ↦ rw e (sent_to room hub payload known)
      ]
