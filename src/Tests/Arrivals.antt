-- ===== src/Tests/Arrivals.antt =====
-- The theorem on the first messages to a client, with a client of the room of `Rooms`.
use syncpond.Base.{
  ℕ, ◌+◌, ◌≤◌, String, ◌≡◌, refl, List, some, [], ◌∷◌, ◌++◌, map, arith, length, if◌then◌else◌,
}
use syncpond.Base.Eq.{nat_eq}
use syncpond.Base.HashSet.{contains}
use syncpond.Base.HashSet.Distinct.{IsDistinct}
use syncpond.Protocol.{DataUpdate, targeted}
use syncpond.State.Fragments.Entries.{entry_at}
use syncpond.Hub.{get_client_room_id, new}
use syncpond.Hub.Sessions.{turns}
use syncpond.Kernel.{channel_capacity}
use syncpond.Kernel.InitialSync.{collect_updates, handle_client_connected}
use syncpond.Kernel.InitialSync.Sent.{sent_at, live_entry, handle_client_connected-sends}
use syncpond.Tests.Values.{Value, value_json}
use syncpond.Tests.Frames.{test_wire}
use syncpond.Tests.Rooms.{room, room_found, room-IsVersioned}
use syncpond.Tests.Clients.{hub}
use syncpond.Tests.Writes.{kernel}

known : get_client_room_id 1 hub ≡ some 1
unfolding get_client_room_id turns new
known = refl

fits : length kernel.notifications + length (collect_updates (0 ∷ []) room) ≤ channel_capacity
unfolding collect_updates value_json
fits = omega arith

zero-IsDistinct : IsDistinct {A = ℕ} (0 ∷ [])
unfolding contains
zero-IsDistinct = (refl, tt)

handle_client_connected-sends_example :
    (updates : List (DataUpdate Value)) × ((handle_client_connected 1
        (0 ∷ [])
        hub
        kernel).notifications
      ≡ [] ++ map (targeted 1) updates)
    × ((b : ℕ) (key : String)
        → sent_at b key updates
          ≡ (if contains b (0 ∷ []) then live_entry (entry_at b key room) else []))
handle_client_connected-sends_example =
    handle_client_connected-sends 1 1 (0 ∷ []) hub room kernel known room_found room-IsVersioned
      zero-IsDistinct fits
