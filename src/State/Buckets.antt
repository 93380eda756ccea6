-- ===== src/State/Buckets.antt =====
-- The labels and the flags of buckets, server/crates/sp-kernel/src/state/mod.rs.
pub mod Settings
use Prim.Native.Nat.{bit_and, bit_or}
use syncpond.Base.{
  ℕ, ◌-◌, String, Bool, not, Option, none, ok, err, fail_if, ◌>>=◌, ◌>>◌, unwrap_or, if◌then◌else◌,
}
use syncpond.Base.Eq.{nat_eq}
use syncpond.Base.HashMap.{get, insert, contains_key}
use syncpond.Base.Text.{trim}
use syncpond.State.{RoomState, AppState, Outcome, room_of, update_room}
use syncpond.State.Errors.{room_io_busy, bucket_not_found, label_invalid}
use syncpond.State.Labels.{is_invalid_label}

-- `!mask` on u32
abbrev pub not_u32 : ℕ → ℕ
not_u32 mask = 4294967295 - mask

-- `current | flag_mask` or `current & !flag_mask`
unfoldable pub with_bit : ℕ → ℕ → Bool → ℕ
with_bit current flag_mask enabled =
    if enabled then bit_or current flag_mask else bit_and current (not_u32 flag_mask)

module _ {V : Type 0} where
  -- The guards that the operations on a bucket share.
  unfoldable pub existing_bucket : ℕ → RoomState V → Outcome (Unit {0})
  unfolding contains_key
  existing_bucket bucket_id room = do
    fail_if room.io_locked room_io_busy
    fail_if (not (contains_key bucket_id room.buckets)) bucket_not_found

  unfoldable pub label_bucket : ℕ → String → RoomState V → Outcome (RoomState V)
  unfolding existing_bucket insert
  label_bucket bucket_id label_trimmed room = do
    existing_bucket bucket_id room
    ok (record room { bucket_labels = insert bucket_id label_trimmed room.bucket_labels })

  unfoldable pub set_bucket_label : ℕ → ℕ → String → AppState V → Outcome (AppState V)
  unfolding trim is_invalid_label update_room label_bucket
  set_bucket_label room_id bucket_id label app = do
    let label_trimmed = trim label
    fail_if (is_invalid_label label_trimmed) label_invalid
    update_room room_id (label_bucket bucket_id label_trimmed) app

  unfoldable pub label_in : ℕ → Outcome (RoomState V) → Option String
  unfolding get
  label_in bucket_id (ok room) = get bucket_id room.bucket_labels
  label_in bucket_id (err e) = none

  unfoldable pub get_bucket_label : ℕ → ℕ → AppState V → Option String
  unfolding room_of label_in
  get_bucket_label room_id bucket_id app = label_in bucket_id (room_of room_id app)

  unfoldable pub flag_bucket : ℕ → ℕ → RoomState V → Outcome (RoomState V)
  unfolding existing_bucket insert
  flag_bucket bucket_id flags room = do
    existing_bucket bucket_id room
    ok (record room { bucket_flags = insert bucket_id flags room.bucket_flags })

  unfoldable pub set_bucket_flags : ℕ → ℕ → ℕ → AppState V → Outcome (AppState V)
  unfolding update_room flag_bucket
  set_bucket_flags room_id bucket_id flags = update_room room_id (flag_bucket bucket_id flags)

  unfoldable pub get_bucket_flags : ℕ → ℕ → AppState V → Outcome ℕ
  unfolding room_of existing_bucket get
  get_bucket_flags room_id bucket_id app = do
    room ← room_of room_id app
    existing_bucket bucket_id room
    ok (unwrap_or (get bucket_id room.bucket_flags) 0)

  unfoldable pub change_bit : ℕ → ℕ → Bool → RoomState V → Outcome (RoomState V)
  unfolding existing_bucket insert get with_bit
  change_bit bucket_id flag_mask enabled room = do
    existing_bucket bucket_id room
    let current = unwrap_or (get bucket_id room.bucket_flags) 0
    let new = with_bit current flag_mask enabled
    ok (record room { bucket_flags = insert bucket_id new room.bucket_flags })

  unfoldable pub set_bucket_flag_bit : ℕ → ℕ → ℕ → Bool → AppState V → Outcome (AppState V)
  unfolding update_room change_bit
  set_bucket_flag_bit room_id bucket_id flag_mask enabled =
      update_room room_id (change_bit bucket_id flag_mask enabled)
