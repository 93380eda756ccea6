-- ===== src/State/Members.antt =====
-- The members of a room, server/crates/sp-kernel/src/state/mod.rs.
use syncpond.Base.{ℕ, String, not, List, ok, fail_if, ◌>>=◌, ◌>>◌}
use syncpond.Base.Eq.{string_eq}
use syncpond.Base.HashSet.{contains, insert, remove}
use syncpond.Base.Sort.{sort_text}
use syncpond.Base.Text.{trim}
use syncpond.State.{RoomState, AppState, Outcome, room_of, update_room}
use syncpond.State.Errors.{room_io_busy, room_not_loaded, fragment_not_found, label_invalid}
use syncpond.State.Labels.{is_invalid_label}

module _ {V : Type 0} where
  -- The two guards of every operation on the data of a room.
  unfoldable pub usable : RoomState V → Outcome (Unit {0})
  usable room = do fail_if room.io_locked room_io_busy; fail_if (not room.loaded) room_not_loaded

  unfoldable pub insert_member : String → RoomState V → Outcome (RoomState V)
  unfolding usable insert
  insert_member member room = do
    usable room
    ok (record room { members = insert member room.members })

  unfoldable pub add_member : ℕ → String → AppState V → Outcome (AppState V)
  unfolding trim is_invalid_label update_room insert_member
  add_member room_id member app = do
    let member_trimmed = trim member
    fail_if (is_invalid_label member_trimmed) label_invalid
    update_room room_id (insert_member member_trimmed) app

  unfoldable pub drop_member : String → RoomState V → Outcome (RoomState V)
  unfolding usable contains remove
  drop_member member room = do
    usable room
    fail_if (not (contains member room.members)) fragment_not_found
    ok (record room { members = remove member room.members })

  unfoldable pub remove_member : ℕ → String → AppState V → Outcome (AppState V)
  unfolding update_room drop_member
  remove_member room_id member = update_room room_id (drop_member member)

  unfoldable pub list_members : ℕ → AppState V → Outcome (List String)
  unfolding room_of usable sort_text
  list_members room_id app = do room ← room_of room_id app; usable room; ok (sort_text room.members)
