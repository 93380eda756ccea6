-- ===== src/State.antt =====
-- server/crates/sp-kernel/src/state/mod.rs: the state of the application and of a room. The
-- methods of `AppState` are in the modules below, by subject. A method on `&self` that changes a
-- room returns the new `AppState`, or the error with which it returns early: on each such path the
-- source has changed nothing.
pub mod Errors
pub mod Access
pub mod Config
pub mod Rooms
pub mod Labels
pub mod Buckets
pub mod Members
pub mod Fragments
pub mod Transactions
pub mod Views
pub mod Metrics
pub mod Tokens
pub mod Reachable
use syncpond.Base.{
  ℕ, zero, String, ◌≡◌, Bool, true, false, Option, none, some, List, arith, Result, ok, err, ◌>>=◌,
  u64_max, if◌then◌else◌,
}
use syncpond.Base.Eq.{nat_eq, ==_iff, ◌==◌}
use syncpond.Base.HashMap.{HashMap, get, insert, get-insert}
use syncpond.Base.HashSet.{HashSet}
use Errors.{StateError, room_not_found}

-- `SERVER_ONLY_BUCKET_ID`
abbrev pub server_only_bucket_id : ℕ
server_only_bucket_id = u64_max

pub record FragmentEntry (V : Type 0) : Type 0 where
  pub value : V
  pub key_version : ℕ

pub data RoomCommand (V : Type 0) : Type 0 where
  set : (bucket_id : ℕ) → (key : String) → V → RoomCommand V
  del : (bucket_id : ℕ) → (key : String) → RoomCommand V

abbrev pub Fragments : Type 0 → Type 0
Fragments V = HashMap String (FragmentEntry V)

pub record RoomState (V : Type 0) : Type 0 where
  pub buckets : HashMap ℕ (Fragments V)
  pub room_counter : ℕ
  pub tx_buffer : Option (List (RoomCommand V))
  pub io_locked : Bool
  pub loaded : Bool
  pub bucket_labels : HashMap ℕ String
  pub bucket_flags : HashMap ℕ ℕ
  pub members : HashSet String

-- `std::sync::RwLock`: it is poisoned once a thread has panicked while it held the lock, and then
-- neither `read` nor `write` gives the content.
pub record RwLock (A : Type 0) : Type 0 where
  pub content : A
  pub poisoned : Bool

pub record AppState (V : Type 0) : Type 0 where
  pub total_ws_connections : ℕ
  pub total_command_requests : ℕ
  pub command_error_count : ℕ
  pub ws_auth_success : ℕ
  pub ws_auth_failure : ℕ
  pub command_auth_failure : ℕ
  pub invalid_command_count : ℕ
  pub ws_connection_latency_ns_total : ℕ
  pub ws_connection_count : ℕ
  pub ws_update_dropped : ℕ
  pub ws_update_rate_limited : ℕ
  pub ws_send_errors : ℕ
  pub rooms : HashMap ℕ (RwLock (RoomState V))
  pub labels : HashMap String ℕ
  pub next_room_id : ℕ
  pub jwt_key : Option String
  pub jwt_ttl_seconds : ℕ
  pub jwt_issuer : Option String
  pub jwt_audience : Option String
  pub last_jwt_issue_seconds : Option ℕ
  pub command_api_key : Option String
  pub save_dir : String

abbrev pub Outcome : Type 0 → Type 0
Outcome A = Result A StateError

abbrev pub lock_content : {A : Type 0} → Option (RwLock A) → Outcome A
lock_content none = err room_not_found
lock_content (some lock) = if lock.poisoned then err room_not_found else ok lock.content

module _ {V : Type 0} where
  -- `rooms.get(&room_id).ok_or(RoomNotFound)?` and then `read()` or `write()`
  unfoldable pub room_of : ℕ → AppState V → Outcome (RoomState V)
  unfolding get
  room_of room_id app = lock_content (get room_id app.rooms)

  -- The room after the writes that a method made through the guard of its lock.
  unfoldable pub put_room : ℕ → RoomState V → AppState V → AppState V
  unfolding insert
  put_room room_id room app =
      let lock : RwLock (RoomState V) = record { content = room; poisoned = false } in
      record app { rooms = insert room_id lock app.rooms }

  unfoldable pub update_room :
      ℕ → (RoomState V → Outcome (RoomState V)) → AppState V → Outcome (AppState V)
  unfolding room_of put_room
  update_room room_id f app = do
    room ← room_of room_id app
    room' ← f room
    ok (put_room room_id room' app)

  -- The state after a call: an error leaves it as it was.
  abbrev pub after : AppState V → Outcome (AppState V) → AppState V
  after app (ok app') = app'
  after app (err e) = app
