-- ===== src/Kernel/Writing.antt =====
-- The commands WriteFragment and ReadFragment, server/crates/sp-kernel/src/kernel.rs.
use syncpond.Base.{ℕ, String, not, Option, none, some, Result, ok, err, unwrap_or, if◌then◌else◌}
use syncpond.Base.Eq.{string_eq, ◌==◌}
use syncpond.Base.Text.Decimal.{to_string}
use syncpond.Extern.Json.{Json, Bytes}
use syncpond.Extern.Rocks.{Rocks}
use syncpond.Protocol.{
  DataUpdate, broadcast, CommandResponse, fragment_write_response, fragment_read_response,
  load_room_response,
}
use syncpond.State.{Outcome, after}
use syncpond.State.Errors.{display}
use syncpond.State.Rooms.{is_room_loaded}
use syncpond.State.Fragments.{set_fragment, get_fragment, room_version}
use syncpond.Persistence.Rooms.{persist_fragment}
use syncpond.Kernel.{SyncpondKernel, notify, persist_in}

unfoldable pub version_or_zero : Outcome ℕ → ℕ
version_or_zero (ok n) = n
version_or_zero (err e) = 0

module _ {V : Type 0} ⦃J : Json V⦄ where
  -- `from_utf8_lossy` is `String::from_utf8_lossy`.
  unfoldable pub parse_value : (from_utf8_lossy : Bytes → String) → Bytes → V
  parse_value from_utf8_lossy bytes =
      unwrap_or (J.from_slice bytes) (J.string (from_utf8_lossy bytes))

  -- What is persisted of a value: none of a null.
  unfoldable pub persisted_value : V → Option V
  persisted_value value = if J.is_null value then none else some value

  -- The answer of `ReadFragment`.
  unfoldable pub read_response : Outcome (V × ℕ) → CommandResponse
  unfolding display
  read_response (ok (value, key_version)) = fragment_read_response (J.to_vec value)
  read_response (err e) =
      if display e == "room_not_loaded"
      then load_room_response (err "room_not_loaded")
      else fragment_read_response none

  unfoldable pub handle_read_fragment :
      {D C : Type 0} (room_id bucket_id : ℕ) (key : String)
      → SyncpondKernel V D C
      → CommandResponse × SyncpondKernel V D C
  unfolding read_response get_fragment
  handle_read_fragment room_id bucket_id key k =
      (read_response (get_fragment room_id bucket_id key k.state), k)

-- What others do to the kernel between two locks of a write: before it sets the value, before it
-- persists it, before it reads the room's version, and before it sends the update.
pub record Others (V D C : Type 0) : Type 0 where
  pub before_set : SyncpondKernel V D C → SyncpondKernel V D C
  pub before_persist : SyncpondKernel V D C → SyncpondKernel V D C
  pub before_read : SyncpondKernel V D C → SyncpondKernel V D C
  pub before_send : SyncpondKernel V D C → SyncpondKernel V D C

-- No other comes in between.
unfoldable pub nobody : {V D C : Type 0} → Others V D C
nobody = record {
  before_set = λ k. k;
  before_persist = λ k. k;
  before_read = λ k. k;
  before_send = λ k. k;
}

module _ {V D C : Type 0} where
  -- Under the lock of the state: an error is only logged.
  unfoldable pub set_value :
      (room_id bucket_id : ℕ) (key : String) → V → SyncpondKernel V D C → SyncpondKernel V D C
  unfolding set_fragment
  set_value room_id bucket_id key value k = record k {
    state = after k.state (set_fragment room_id bucket_id key value k.state);
  }

  -- `self.downstream.broadcast(update)`, with the version that was read before.
  unfoldable pub announce_value :
      (bucket_id : ℕ) (key : String)
      → V
      → (room_counter : ℕ) → SyncpondKernel V D C
      → SyncpondKernel V D C
  unfolding notify
  announce_value bucket_id key value room_counter k =
      let update : DataUpdate V = record {
        bucket_id = bucket_id;
        key = key;
        value = some value;
        bucket_counter = room_counter;
      } in
      record k { notifications = (notify (broadcast update) k.notifications).1 }

module _ {V D C : Type 0} ⦃J : Json V⦄ ⦃R : Rocks D⦄ (open_db : ℕ → Result D String) where
  unfoldable pub persist_value :
      (room_id bucket_id : ℕ) (key : String) → V → SyncpondKernel V D C → SyncpondKernel V D C
  unfolding persist_in persist_fragment to_string persisted_value
  persist_value room_id bucket_id key value k =
      let action = persist_fragment (to_string bucket_id) key (persisted_value value) in
      record k { persistence = persist_in open_db room_id action k.persistence }

  -- The value is set, persisted and broadcast, each whatever came of the one before; the version
  -- is read under a lock of its own.
  unfoldable pub write_value :
      Others V D C
      → (room_id bucket_id : ℕ) (key : String) → V
      → SyncpondKernel V D C
      → SyncpondKernel V D C
  unfolding set_value persist_value announce_value room_version version_or_zero
  write_value others room_id bucket_id key value k =
      let set = set_value room_id bucket_id key value (others.before_set k) in
      let stored = persist_value room_id bucket_id key value (others.before_persist set) in
      let now = others.before_read stored in
      let room_counter = version_or_zero (room_version room_id now.state) in
      announce_value bucket_id key value room_counter (others.before_send now)

  -- `WriteFragment`, with what others do between its locks.
  unfoldable pub handle_write_fragment_among :
      (from_utf8_lossy : Bytes → String)
      → Others V D C
      → (room_id bucket_id : ℕ) (key : String) (bytes : Bytes) → SyncpondKernel V D C
      → CommandResponse × SyncpondKernel V D C
  unfolding is_room_loaded parse_value write_value
  handle_write_fragment_among from_utf8_lossy others room_id bucket_id key bytes k =
      if not (is_room_loaded room_id k.state)
      then (load_room_response (err "room_not_loaded"), k)
      else (
        fragment_write_response,
        write_value others room_id bucket_id key (parse_value from_utf8_lossy bytes) k,
      )

  -- `WriteFragment` where no other comes in between.
  unfoldable pub handle_write_fragment :
      (from_utf8_lossy : Bytes → String) (room_id bucket_id : ℕ) (key : String) (bytes : Bytes)
      → SyncpondKernel V D C
      → CommandResponse × SyncpondKernel V D C
  unfolding handle_write_fragment_among nobody
  handle_write_fragment from_utf8_lossy = handle_write_fragment_among from_utf8_lossy nobody
