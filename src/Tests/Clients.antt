-- ===== src/Tests/Clients.antt =====
-- The theorems on the hub, the handshake and the events, with two clients.
use syncpond.Base.{
  ℕ, String, ◌≡◌, refl, true, Option, none, some, inl, inr, ◌↔◌, List, [], ◌∷◌, arith, ok, Result,
  ◌<◌, u64_max, if◌then◌else◌,
}
use syncpond.Base.Eq.{nat_eq, ◌==◌}
use syncpond.Extern.Json.{Bytes}
use syncpond.Extern.Wire.{auth}
use syncpond.Protocol.{DataUpdate}
use syncpond.Hub.{WsHub, TrySend, queued, full, new, broadcast_update, update_event}
use syncpond.Hub.HubInvariant.{HubInv}
use syncpond.Hub.Broadcast.{IsDelivered, broadcast_update-IsDelivered}
use syncpond.Hub.Event.{update_event_iff}
use syncpond.Hub.Sessions.{Turn, registering, leaving, turns, turns-new-HubInv}
use syncpond.Auth.{Claims}
use syncpond.Connection.{Received, binary, admitted, first_frame, finish_handshake}
use syncpond.Connection.Handshake.{IsAuthorized, first_frame-IsAuthorized}
use syncpond.Connection.Opening.{IsOpened, finish_handshake-IsOpened}
use syncpond.Tests.Values.{Value, number, value_json}
use syncpond.Tests.Frames.{test_wire}

abbrev update : DataUpdate Value
update = record { bucket_id = 0; key = "a"; value = some (number 5); bucket_counter = 1 }

-- The queue of the sender 8 is full.
abbrev pub try_send : ℕ → Bytes → TrySend
try_send sender event = if sender == 8 then full else queued

abbrev pub visits : List (Turn Value ℕ)
visits =
    registering 1 (0 ∷ []) 7
    ∷ registering 2 (0 ∷ 3 ∷ []) 8
    ∷ registering 2 (3 ∷ []) 9
    ∷ leaving 3
    ∷ []

abbrev pub hub : WsHub ℕ
hub = turns visits new

turns-new-HubInv_example : HubInv hub
turns-new-HubInv_example = turns-new-HubInv visits (omega arith)

pub hub_sound : HubInv hub
hub_sound = turns-new-HubInv visits (omega arith)

broadcast_update-IsDelivered_example :
    IsDelivered try_send update hub
      (broadcast_update try_send update hub).0
      (broadcast_update try_send update hub).1
broadcast_update-IsDelivered_example = broadcast_update-IsDelivered try_send update hub hub_sound

saved : value_json.to_vec (number 5) ≡ some (6 ∷ [])
unfolding value_json
saved = refl

exact : value_json.is_exact (number 5) ≡ true
unfolding value_json
exact = refl

-- The deletion of the key whose value `update` sets.
abbrev deletion : DataUpdate Value
deletion = record update { value = none }

update_event_iff_example : (update_event update ≡ update_event deletion) ↔ (update ≡ deletion)
update_event_iff_example =
    update_event_iff update deletion (inr (number 5, 6 ∷ [], refl, exact, saved)) (inl refl)

abbrev env : String → Option String
env name = some "key"

abbrev ann : Claims
ann = record { sub = "ann"; room_id = some 2; buckets = some (3 ∷ []); exp = 50 }

abbrev decode_token : String → String → Result Claims String
decode_token key token = ok ann

abbrev frame : Received
frame = binary (test_wire.encode_to_vec (some (auth "token" 0)))

frame-admitted : first_frame env decode_token 10 9 frame ≡ admitted 2 (0 ∷ 3 ∷ [])
unfolding first_frame test_wire
frame-admitted = refl

first_frame-IsAuthorized_example :
    (jwt : String) × (claims : Claims) × IsAuthorized env decode_token 10 9 2
      (0 ∷ 3 ∷ [])
      jwt
      claims
first_frame-IsAuthorized_example =
    first_frame-IsAuthorized env decode_token 10 9 frame 2 (0 ∷ 3 ∷ []) frame-admitted

ids_left : hub.next_conn_id < u64_max
unfolding turns new
ids_left = omega arith

finish_handshake-IsOpened_example :
    IsOpened true 2 (0 ∷ 3 ∷ []) hub (finish_handshake true true 5 (admitted 2 (0 ∷ 3 ∷ [])) hub)
    × HubInv ((finish_handshake true true 5 (admitted 2 (0 ∷ 3 ∷ [])) hub).hub)
finish_handshake-IsOpened_example =
    finish_handshake-IsOpened true 5 2 (0 ∷ 3 ∷ []) hub ids_left hub_sound
