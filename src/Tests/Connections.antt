-- ===== src/Tests/Connections.antt =====
-- The theorem on the loop of a connection, at the hub of `Clients`.
use syncpond.Base.{ℕ, refl, true, List, [], ◌∷◌, some, inl, inr}
use syncpond.Extern.Wire.{client_command}
use syncpond.Hub.{new, get_client_room_id}
use syncpond.Hub.Sessions.{turns}
use syncpond.Connection.{binary, ping, close}
use syncpond.Connection.Loop.{from_client, from_queue, Round, serve_client}
use syncpond.Connection.Loop.Rounds.{InRoom}
use syncpond.Connection.Loop.Served.{IsServed, serve_client-IsServed}
use syncpond.Tests.Frames.{encode, test_wire}
use syncpond.Tests.Clients.{hub, hub_sound}

abbrev rounds : List (Round ℕ)
rounds =
    record { incoming = from_client (ping (1 ∷ [])); delivered = true; hub = hub }
    ∷ record {
      incoming = from_client (binary (encode (some (client_command (9 ∷ [])))));
      delivered = true;
      hub = hub;
    }
    ∷ record { incoming = from_queue (some (4 ∷ [])); delivered = true; hub = new }
    ∷ record { incoming = from_client close; delivered = true; hub = new }
    ∷ record { incoming = from_client (ping (2 ∷ [])); delivered = true; hub = new }
    ∷ []

rounds-InRoom : InRoom 1 1 rounds
unfolding get_client_room_id turns new
rounds-InRoom = (inl refl, (inl refl, (inr refl, (inr refl, (inr refl, tt)))))

serve_client-IsServed_example : IsServed 1 true 1 rounds hub (serve_client 1 true rounds hub)
serve_client-IsServed_example = serve_client-IsServed 1 true 1 rounds hub rounds-InRoom hub_sound
