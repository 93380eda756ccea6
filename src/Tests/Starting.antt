-- ===== src/Tests/Starting.antt =====
-- The theorems on the start of the server, with the directories of two rooms.
use syncpond.Base.{
  ℕ, ◌+◌, String, ◌≡◌, ◌↔◌, ◌⊎◌, ◌<◌, u64_mod, refl, Option, none, some, List, [], ◌∷◌, arith,
  Result, ok, err, length,
}
use syncpond.Protocol.{Commands, client_disconnected}
use syncpond.State.{room_of}
use syncpond.State.Config
use syncpond.State.Errors.{room_not_found}
use syncpond.Kernel.Reachable.{
  Event, commanded, setting, announcing, notified, forwarded, deleting, events,
}
use syncpond.Kernel.Reachable.Invariant.{KernelInv}
use syncpond.Startup.{SyncpondConfig, Server, start}
use syncpond.Startup.Outcomes.{IsServable, start_iff}
use syncpond.Startup.Stubs.{top_id}
use syncpond.Startup.Started.{top_store, unread_room, IsOnDisk, start-rooms, start-events-KernelInv}
use syncpond.Tests.Values.{Value, value_json}
use syncpond.Tests.Stores.{Store, Cache, test_rocks, test_lru, test_ids, test_texts, test_records}
use syncpond.Tests.Clients.{hub}
use syncpond.Tests.Writes.{open_db, lossy, seven}

abbrev pub config : SyncpondConfig
config = record {
  command_api_key = "secret";
  ws_addr = none;
  upstream_grpc_addr = some "here:1";
  jwt_key = none;
  jwt_issuer = some "pond";
  jwt_audience = none;
  jwt_ttl_seconds = some 60;
  require_tls = none;
  ws_allowed_origins = none;
  save_dir = some "rooms";
}

abbrev pub create_dir_all : String → Result (Unit {0}) String
create_dir_all dir = ok tt

abbrev read_dir : Result (List (Option String)) String
read_dir = ok (some "room_3" ∷ none ∷ some "notes" ∷ some "room_12" ∷ [])

abbrev pub parse_addr : String → Option String
parse_addr s = some s

abbrev start_here : Result (Server Value Store Cache String) String
start_here = start open_db create_dir_all read_dir parse_addr [] config

start_iff_example :
    ((server : Server Value Store Cache String) × (start_here ≡ ok server))
    ↔ IsServable create_dir_all parse_addr config
start_iff_example = start_iff open_db create_dir_all read_dir parse_addr [] config

abbrev pub ok_or_blank :
    Result (Server Value Store Cache String) String → Server Value Store Cache String
ok_or_blank (ok server) = server
ok_or_blank (err e) = record {
  kernel = record {
    state = Config.new;
    persistence = record { dbs = []; bucket_cache = [] };
    notifications = [];
  };
  ws_addr = "";
  grpc_addr = "";
  ws_allowed_origins = [];
  api_key = none;
}

abbrev server : Server Value Store Cache String
server = ok_or_blank start_here

started : start_here ≡ ok server
unfolding start
started = refl

start-rooms_example :
    ((room_of 12 server.kernel.state ≡ ok unread_room) ↔ IsOnDisk open_db read_dir 12)
    × ((room_of 12 server.kernel.state ≡ ok unread_room)
        ⊎ (room_of 12 server.kernel.state ≡ err room_not_found))
start-rooms_example =
    start-rooms open_db create_dir_all read_dir parse_addr [] config server started 12

abbrev happened : List (Event ℕ)
happened =
    commanded (Commands.load_room 3)
    ∷ commanded (Commands.new_bucket 3 0 "all")
    ∷ commanded (Commands.write_fragment 3 0 "k" seven)
    ∷ setting 3 0 "k" seven
    ∷ announcing 0 "k" seven 2
    ∷ commanded (Commands.new_room "pond")
    ∷ notified hub (client_disconnected 1)
    ∷ forwarded
    ∷ deleting 12
    ∷ []

few : top_store server + length happened + 1 < u64_mod
unfolding start top_id
few = omega arith

start-events-KernelInv_example :
    KernelInv (top_store server + length happened) (events open_db lossy happened server.kernel)
start-events-KernelInv_example =
    start-events-KernelInv open_db create_dir_all read_dir parse_addr [] lossy config server
      happened started few
