-- ===== src/Tests/Writes.antt =====
-- The theorems on the commands, the store and the statuses, at the room of `Rooms`.
use syncpond.Base.{
  ℕ, String, ◌≡◌, refl, true, false, Option, none, some, [], ◌∷◌, ◌++◌, arith, ok, err, Result, ◌↔◌,
  if◌then◌else◌,
}
use syncpond.Base.Eq.{nat_eq, string_eq}
use syncpond.Extern.Json.{Bytes}
use syncpond.Protocol.{broadcast}
use syncpond.State.{RoomState, after, room_of}
use syncpond.State.Members.{usable, add_member}
use syncpond.State.Config.{new, set_jwt_key, set_jwt_issuer, set_jwt_audience}
use syncpond.State.Labels.{set_room_label}
use syncpond.State.Fragments.{set_fragment}
use syncpond.State.Reachable.{run}
use syncpond.State.Rooms.{is_room_loaded, create_room}
use syncpond.State.Transactions.{tx_begin}
use syncpond.State.Tokens.{JwtClaims}
use syncpond.Kernel.{SyncpondKernel}
use syncpond.Kernel.Buckets.{
  handle_new_bucket, handle_delete_bucket, handle_new_member, handle_delete_member,
}
use syncpond.Kernel.Writing.{parse_value, handle_read_fragment, handle_write_fragment}
use syncpond.Kernel.Written.{usable-loaded, write_fragment-in_transaction}
use syncpond.Upstream.{map_room_error, respond, respond_jwt, failed_precondition, intercept}
use syncpond.Upstream.Handler.{
  new_bucket_answer, delete_bucket_answer, new_member_answer, delete_member_answer,
  write_fragment_answer, issue_jwt,
}
use syncpond.Upstream.Statuses.{
  intercept_iff, unless_unloaded, respond-edit, respond-write_fragment, IsOwn,
  respond_jwt-issue_jwt,
}
use syncpond.Tests.Values.{Value, value_json}
use syncpond.Tests.Stores.{Store, Cache, test_rocks, test_lru, test_ids, test_texts, test_records}
use syncpond.Tests.Rooms.{app, room, room_found, room_usable}

abbrev pub open_db : ℕ → Result Store String
open_db room_id = ok []

abbrev pub lossy : Bytes → String
lossy bytes = "?"

abbrev pub kernel : SyncpondKernel Value Store Cache
kernel = record {
  state = app;
  persistence = record { dbs = (1, []) ∷ []; bucket_cache = [] };
  notifications = [];
}

-- The bytes of the number 7.
abbrev pub seven : Bytes
seven = 8 ∷ []

pub seven_real : value_json.is_null (parse_value lossy seven) ≡ false
unfolding value_json parse_value
seven_real = refl

pub seven_exact : value_json.is_exact (parse_value lossy seven) ≡ true
unfolding value_json parse_value
seven_exact = refl

pub seven_parsed : value_json.from_slice seven ≡ some (parse_value lossy seven)
unfolding parse_value value_json
seven_parsed = refl

pub room_loaded : is_room_loaded 1 kernel.state ≡ true
room_loaded = usable-loaded 1 room kernel.state room_found room_usable

pub seven_saved : value_json.to_vec (parse_value lossy seven) ≡ some seven
unfolding value_json parse_value
seven_saved = refl

abbrev in_transaction : RoomState Value
in_transaction = record room { tx_buffer = some [] }

abbrev busy : SyncpondKernel Value Store Cache
busy = record kernel { state = after app (tx_begin 1 app) }

busy_found : room_of 1 busy.state ≡ ok in_transaction
unfolding tx_begin run new set_jwt_audience set_jwt_issuer set_jwt_key add_member set_room_label
    set_fragment create_room
busy_found = refl

busy_usable : usable in_transaction ≡ ok tt
unfolding usable
busy_usable = refl

write_fragment-in_transaction_example :
    ((c : ℕ) (j : String)
      → (handle_read_fragment 1 c j ((handle_write_fragment open_db lossy 1 0 "a" seven busy).1)).0
        ≡ (handle_read_fragment 1 c j busy).0)
    × ((handle_write_fragment open_db lossy 1 0 "a" seven busy).1.notifications
        ≡ []
          ++ broadcast (record {
            bucket_id = 0;
            key = "a";
            value = some (parse_value lossy seven);
            bucket_counter = 2;
          })
            ∷ [])
write_fragment-in_transaction_example =
    write_fragment-in_transaction open_db lossy 1 0 "a" seven in_transaction [] busy busy_found
      busy_usable refl (omega arith)

pub app_loaded : is_room_loaded 1 app ≡ true
app_loaded = usable-loaded 1 room app room_found room_usable

intercept_iff_example :
    (intercept (some "k") (some "k") ≡ ok tt)
    ↔ ((key : String) × (some "k" ≡ some key) × (some "k" ≡ some key))
intercept_iff_example = intercept_iff (some "k") (some "k")

respond-edit_example :
    (respond map_room_error (new_bucket_answer ((handle_new_bucket open_db 1 4 "x" kernel).0))
      ≡ unless_unloaded 1 app)
    × (respond map_room_error (delete_bucket_answer ((handle_delete_bucket open_db 1 4 kernel).0))
        ≡ unless_unloaded 1 app)
    × (respond map_room_error (new_member_answer ((handle_new_member open_db 1 "x" kernel).0))
        ≡ unless_unloaded 1 app)
    × (respond map_room_error (delete_member_answer ((handle_delete_member open_db 1 "x" kernel).0))
        ≡ unless_unloaded 1 app)
respond-edit_example = respond-edit open_db 1 4 "x" kernel

respond-write_fragment_example :
    respond map_room_error
      (write_fragment_answer ((handle_write_fragment open_db lossy 1 0 "c" seven kernel).0))
    ≡ (if is_room_loaded 1 app then ok tt else err (failed_precondition, "room_not_loaded"))
respond-write_fragment_example = respond-write_fragment open_db lossy 1 0 "c" seven kernel

abbrev encode : JwtClaims → String → Option String
encode claims key = none

respond_jwt-issue_jwt_example : IsOwn (respond_jwt ((issue_jwt encode 100 2 "ann" (3 ∷ []) app).1))
respond_jwt-issue_jwt_example = respond_jwt-issue_jwt encode 100 2 "ann" (3 ∷ []) app
