-- ===== src/Tests/Rooms.antt =====
-- The theorems on the state of the rooms, at a room with two buckets.
use syncpond.Base.{
  ℕ, String, ◌≡◌, refl, true, false, Option, none, some, List, [], ◌∷◌, arith, ok, err, inl, ◌≤◌,
  ◌<◌, ◌+◌, length, u64_mod, ◌||◌, if◌then◌else◌, saturating_add,
}
use syncpond.Base.Eq.{nat_eq, string_eq, ◌==◌}
use syncpond.Base.HashMap.{contains_key}
use syncpond.Base.HashSet.{contains}
use syncpond.Base.Text.{trim}
use syncpond.State.{RoomCommand, set, del, RoomState, AppState, room_of, after}
use syncpond.State.Config.{new, set_jwt_key, set_jwt_issuer, set_jwt_audience}
use syncpond.State.Errors.{fragment_tombstone}
use syncpond.State.Members.{usable, add_member}
use syncpond.State.Fragments.{set_fragment, del_fragment, get_fragment}
use syncpond.State.Fragments.Entries.{entry_at, answer}
use syncpond.State.Fragments.Versions.{IsVersioned}
use syncpond.State.Fragments.Writes.{Wrote, get-set_fragment, get-del_fragment}
use syncpond.State.Labels.{set_room_label, get_room_id_by_label}
use syncpond.State.Rooms.{new_room, create_room}
use syncpond.State.Tokens.{JwtClaims, create_room_token}
use syncpond.State.Tokens.Issued.{IsEntitled, is_later, create_room_token-IsEntitled}
use syncpond.State.Transactions.Requests.{OnlyRoom, request, request_all}
use syncpond.State.Transactions.{tx_end, tx_abort}
use syncpond.State.Transactions.Atomic.{
  transaction, transaction-abort, transaction-direct, transaction-isolated,
}
use syncpond.State.Views.Catchup.{CaughtUp, snapshot-delta}
use syncpond.State.Views.{RoomView, room_snapshot, room_delta}
use syncpond.State.Views.Exact.{view_at, is_visible, live_value, newer_value}
use syncpond.State.Reachable.AppInvariant.{AppInv}
use syncpond.State.Reachable.{
  Call, creates_room, sets_fragment, labels_room, adds_member, sets_jwt_key, sets_jwt_issuer,
  sets_jwt_audience, run,
}
use syncpond.State.Reachable.Runs.{
  run-new-AppInv, run-new-IsVersioned, create_room-run, get_room_id_by_label-run, room_snapshot-run,
  room_delta-run,
}
use syncpond.Tests.Values.{Value, number, value_json}

abbrev pub calls : List (Call Value)
calls =
    creates_room
    ∷ sets_fragment 1 0 "a" (number 5)
    ∷ sets_fragment 1 3 "b" (number 6)
    ∷ labels_room 1 "lobby"
    ∷ adds_member 1 "ann"
    ∷ sets_jwt_key "0123456789abcdef0123456789abcdef"
    ∷ sets_jwt_issuer "pond"
    ∷ sets_jwt_audience "clients"
    ∷ []

abbrev pub app : AppState Value
app = run calls new

abbrev pub room : RoomState Value
room = record {
  buckets =
      (3, ("b", record { value = number 6; key_version = 2 }) ∷ [])
      ∷ (0, ("a", record { value = number 5; key_version = 1 }) ∷ [])
      ∷ [];
  room_counter = 2;
  tx_buffer = none;
  io_locked = false;
  loaded = true;
  bucket_labels = [];
  bucket_flags = [];
  members = "ann" ∷ [];
}

pub room_found : room_of 1 app ≡ ok room
unfolding run new room_of set_jwt_audience set_jwt_issuer set_jwt_key add_member set_room_label
    set_fragment create_room
room_found = refl

pub room_usable : usable room ≡ ok tt
unfolding usable
room_usable = refl

abbrev requests : List (RoomCommand Value)
requests = set 0 "a" (number 9) ∷ del 3 "b" ∷ []

abbrev direct : AppState Value
direct = after app (request_all 1 requests app)

requests_run : request_all 1 requests app ≡ ok direct
unfolding run new room_of set_jwt_audience set_jwt_issuer set_jwt_key add_member set_room_label
    set_fragment create_room request_all request del_fragment
requests_run = refl

few : length calls + 1 < u64_mod
few = omega arith

pub room-IsVersioned : IsVersioned room
room-IsVersioned = run-new-IsVersioned calls 1 room few room_found

snapshot-delta_example : CaughtUp 1 (3 ∷ []) app direct
snapshot-delta_example =
    snapshot-delta 1 (3 ∷ []) requests app direct room room_found room_usable refl room-IsVersioned
      (omega arith) (inl requests_run)

run-new-AppInv_example : AppInv 8 app
run-new-AppInv_example = run-new-AppInv calls few

transaction-abort_example :
    (app' : AppState Value) × (transaction 1 requests (tx_abort 1) app ≡ ok app')
    × OnlyRoom 1 room app app'
transaction-abort_example = transaction-abort 1 requests app room room_found room_usable refl

transaction-direct_example :
    (app' : AppState Value) × (transaction 1 requests (tx_end 1) app ≡ ok app')
    × ((n : ℕ) → room_of n app' ≡ room_of n direct)
transaction-direct_example =
    transaction-direct 1 requests app direct room room_found room_usable refl requests_run

transaction-isolated_example :
    (app' : AppState Value) × (transaction 1 requests (λ open_app. ok open_app) app ≡ ok app')
    × ((n b : ℕ) (k : String) → get_fragment n b k app' ≡ get_fragment n b k app)
transaction-isolated_example = transaction-isolated 1 requests app room room_found room_usable refl

abbrev written : AppState Value
written = after app (set_fragment 1 0 "c" (number 7) app)

written_ok : set_fragment 1 0 "c" (number 7) app ≡ ok written
unfolding run new room_of set_jwt_audience set_jwt_issuer set_jwt_key add_member set_room_label
    set_fragment create_room
written_ok = refl

get-set_fragment_example :
    (get_fragment 1 0 "c" written ≡ answer (some (record { value = number 7; key_version = 3 })))
    × Wrote 1 0 "c" (number 7) room app written
get-set_fragment_example =
    get-set_fragment 1 0 "c" (number 7) room app written room_found refl written_ok

abbrev erased : AppState Value
erased = after app (del_fragment 1 3 "b" app)

erased_ok : del_fragment 1 3 "b" app ≡ ok erased
unfolding run new room_of set_jwt_audience set_jwt_issuer set_jwt_key add_member set_room_label
    set_fragment create_room del_fragment
erased_ok = refl

get-del_fragment_example :
    (contains_key 3 room.buckets ≡ true)
    × (get_fragment 1 3 "b" erased ≡ err fragment_tombstone)
    × Wrote 1 3 "b" value_json.null room app erased
get-del_fragment_example = get-del_fragment 1 3 "b" room app erased room_found refl erased_ok

create_room-run_example :
    (contains_key (create_room app).0 app.rooms ≡ false)
    × ((i : ℕ)
        → room_of i (create_room app).1
          ≡ (if (create_room app).0 == i then ok new_room else room_of i app))
create_room-run_example = create_room-run calls few

label_found : get_room_id_by_label "lobby" app ≡ ok 1
unfolding run new room_of set_jwt_audience set_jwt_issuer set_jwt_key add_member set_room_label
    set_fragment create_room get_room_id_by_label
label_found = refl

get_room_id_by_label-run_example : contains_key 1 app.rooms ≡ true
get_room_id_by_label-run_example = get_room_id_by_label-run calls "lobby" 1 few label_found

room_snapshot-run_example :
    (view : RoomView Value) × (room_snapshot 1 (3 ∷ []) app ≡ some view)
    × (view.room_counter ≡ 2)
    × ((b : ℕ) (k : String)
        → view_at b k view
          ≡ (if is_visible (3 ∷ []) b then live_value (entry_at b k room) else none))
room_snapshot-run_example = room_snapshot-run calls 1 room (3 ∷ []) few room_found

room_delta-run_example :
    (view : RoomView Value) × (room_delta 1 1 (3 ∷ []) app ≡ some view)
    × (view.room_counter ≡ 2)
    × ((b : ℕ) (k : String)
        → view_at b k view
          ≡ (if is_visible (3 ∷ []) b then newer_value 1 (entry_at b k room) else none))
room_delta-run_example = room_delta-run calls 1 1 room (3 ∷ []) few room_found

abbrev encode : JwtClaims → String → Option String
encode claims key = some claims.sub

token_issued : (create_room_token encode 100 1 " ann " (3 ∷ []) app).1 ≡ ok "ann"
unfolding run new room_of set_jwt_audience set_jwt_issuer set_jwt_key add_member set_room_label
    set_fragment create_room create_room_token
token_issued = refl

create_room_token-IsEntitled_example :
    (key : String) × (claims : JwtClaims) × (now : ℕ) × IsEntitled 1 " ann " key (3 ∷ []) app
    × (encode claims key ≡ some "ann")
    × (claims.room_id ≡ 1)
    × (claims.sub ≡ trim " ann ")
    × ((b : ℕ) → contains b claims.buckets ≡ (b == 0 || contains b (3 ∷ [])))
    × ((create_room_token encode 100 1 " ann " (3 ∷ []) app).0.last_jwt_issue_seconds ≡ some now)
    × (is_later app.last_jwt_issue_seconds now ≡ true)
    × (100 ≤ now)
    × (claims.exp ≡ saturating_add now app.jwt_ttl_seconds)
create_room_token-IsEntitled_example =
    create_room_token-IsEntitled encode 100 1 " ann " (3 ∷ []) app "ann" token_issued
