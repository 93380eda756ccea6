-- ===== src/Upstream/Handler.antt =====
-- `KernelCommandHandler`, server/crates/server/src/main.rs: the methods of the service by the
-- commands of the kernel. The kernel's `handle_command` is the interface's.
pub mod Methods
use Prim.Native.String
use syncpond.Base.{ℕ, String, Option, none, List, [], map, Result, ok, err, unwrap_or}
use syncpond.Base.Eq.{nat_eq}
use syncpond.Base.HashMap.{get, keys}
use syncpond.Base.Sort.{sort_unstable}
use syncpond.Base.Text.Decimal.{to_string}
use syncpond.Extern.Json.{Bytes}
use syncpond.Protocol.{
  CommandResponse, new_room_response, new_bucket_response, delete_bucket_response,
  new_member_response, delete_member_response, fragment_write_response, fragment_read_response,
  load_room_response, unload_room_response,
}
use syncpond.State.{RoomState, AppState, Outcome, room_of}
use syncpond.State.Errors.{display}
use syncpond.State.Members.{list_members}
use syncpond.State.Rooms.{list_rooms}
use syncpond.State.Labels.{get_room_label}
use syncpond.State.Tokens.{JwtClaims, create_room_token}

-- The answers of the methods, from the kernel's response.
unfoldable pub new_room_answer : CommandResponse → ℕ
new_room_answer (new_room_response id) = id
new_room_answer r = 0

unfoldable pub new_bucket_answer : CommandResponse → Result (Unit {0}) String
new_bucket_answer new_bucket_response = ok tt
new_bucket_answer (load_room_response (err e)) = err e
new_bucket_answer r = err "new_bucket_failed"

unfoldable pub delete_bucket_answer : CommandResponse → Result (Unit {0}) String
delete_bucket_answer delete_bucket_response = ok tt
delete_bucket_answer (load_room_response (err e)) = err e
delete_bucket_answer r = err "delete_bucket_failed"

unfoldable pub new_member_answer : CommandResponse → Result (Unit {0}) String
new_member_answer new_member_response = ok tt
new_member_answer (load_room_response (err e)) = err e
new_member_answer r = err "new_member_failed"

unfoldable pub delete_member_answer : CommandResponse → Result (Unit {0}) String
delete_member_answer delete_member_response = ok tt
delete_member_answer (load_room_response (err e)) = err e
delete_member_answer r = err "delete_member_failed"

unfoldable pub read_fragment_answer : CommandResponse → Result (Option Bytes) String
read_fragment_answer (fragment_read_response bytes) = ok bytes
read_fragment_answer (load_room_response (err e)) = err e
read_fragment_answer r = ok none

unfoldable pub write_fragment_answer : CommandResponse → Result (Unit {0}) String
write_fragment_answer fragment_write_response = ok tt
write_fragment_answer (load_room_response (err e)) = err e
write_fragment_answer r = err "write_fragment_failed"

unfoldable pub load_room_answer : CommandResponse → Result (Unit {0}) String
load_room_answer (load_room_response result) = result
load_room_answer r = err "load_room_failed"

unfoldable pub unload_room_answer : CommandResponse → Result (Unit {0}) String
unload_room_answer (unload_room_response result) = result
unload_room_answer r = err "unload_room_failed"

-- `format!("{}:{}", id, label)`
labelled : ℕ → Option String → String
unfolding to_string
labelled id label = String.◌++◌ (to_string id) (String.◌++◌ ":" (unwrap_or label ""))

members_or_none : Outcome (List String) → List String
members_or_none (ok members) = members
members_or_none (err e) = []

unfoldable pub to_text : Outcome String → Result String String
unfolding display
to_text (ok jwt) = ok jwt
to_text (err e) = err (display e)

module _ {V : Type 0} where
  unfoldable pub list_rooms_answer : AppState V → List String
  unfolding list_rooms get_room_label labelled
  list_rooms_answer app = map (λ id. labelled id (get_room_label id app)) (list_rooms app)

  unfoldable pub list_members_answer : (room_id : ℕ) → AppState V → List String
  unfolding list_members members_or_none
  list_members_answer room_id app = members_or_none (list_members room_id app)

  buckets_of : Outcome (RoomState V) → List String
  unfolding sort_unstable labelled get
  buckets_of (err e) = []
  buckets_of (ok room) =
      map (λ id. labelled id (get id room.bucket_labels)) (sort_unstable (keys room.buckets))

  unfoldable pub list_buckets_answer : (room_id : ℕ) → AppState V → List String
  unfolding room_of buckets_of
  list_buckets_answer room_id app = buckets_of (room_of room_id app)

  unfoldable pub issue_jwt :
      (encode : JwtClaims → String → Option String) (clock : ℕ) (room_id : ℕ) (sub : String)
      (buckets : List ℕ)
      → AppState V
      → AppState V × Result String String
  unfolding create_room_token to_text
  issue_jwt encode clock room_id sub buckets app =
      let issued = create_room_token encode clock room_id sub buckets app in
      (issued.0, to_text issued.1)
