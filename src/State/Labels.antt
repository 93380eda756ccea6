-- ===== src/State/Labels.antt =====
-- The labels of rooms, server/crates/sp-kernel/src/state/mod.rs.
use Prim.Native.String.{len}
use syncpond.Base.{
  ℕ, String, Bool, not, ◌||◌, Option, none, some, [], ◌∷◌, ok, err, fail_if, ok_or, ◌>>◌, ltb,
  if◌then◌else◌,
}
use syncpond.Base.Eq.{nat_eq, string_eq, ◌==◌}
use syncpond.Base.HashMap.{HashMap, get, insert, contains_key}
use syncpond.Base.Text.{trim, is_empty_str}
use syncpond.State.{AppState, Outcome}
use syncpond.State.Errors.{room_not_found, label_invalid, label_in_use, label_not_found}

-- `label_trimmed.is_empty() || label_trimmed.len() > 256`
unfoldable pub is_invalid_label : String → Bool
unfolding is_empty_str
is_invalid_label label_trimmed = is_empty_str label_trimmed || ltb 256 (len label_trimmed)

first_label : ℕ → HashMap String ℕ → Option String
first_label room_id [] = none
first_label room_id ((label, rid) ∷ labels) =
    if rid == room_id then some label else first_label room_id labels

module _ {V : Type 0} where
  -- The end of `set_room_label`: what it does with the label's present owner.
  claim_label : ℕ → String → AppState V → Option ℕ → Outcome (AppState V)
  unfolding insert
  claim_label room_id label_trimmed app none =
      ok (record app { labels = insert label_trimmed room_id app.labels })
  claim_label room_id label_trimmed app (some existing) =
      if existing == room_id then ok app else err label_in_use

  unfoldable pub set_room_label : ℕ → String → AppState V → Outcome (AppState V)
  unfolding trim is_invalid_label contains_key get claim_label
  set_room_label room_id label app = do
    let label_trimmed = trim label
    fail_if (is_invalid_label label_trimmed) label_invalid
    fail_if (not (contains_key room_id app.rooms)) room_not_found
    claim_label room_id label_trimmed app (get label_trimmed app.labels)

  unfoldable pub get_room_id_by_label : String → AppState V → Outcome ℕ
  unfolding trim get
  get_room_id_by_label label app = ok_or (get (trim label) app.labels) label_not_found

  -- The first label that the iteration of the map meets.
  unfoldable pub get_room_label : ℕ → AppState V → Option String
  unfolding first_label
  get_room_label room_id app = first_label room_id app.labels
