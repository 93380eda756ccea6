-- ===== src/Tests/Lifecycle.antt =====
-- The theorems on loading and unloading, at the room of `Rooms`.
use syncpond.Base.{
  ℕ, String, ◌≡◌, refl, true, false, none, some, List, [], ◌∷◌, ok, err, unwrap_or, if◌then◌else◌,
}
use syncpond.Base.Eq.{nat_eq, string_eq, ◌==◌}
use syncpond.Base.HashMap.{HashMap, get}
use syncpond.State.{RoomState, AppState, room_of}
use syncpond.State.Errors.{room_not_loaded}
use syncpond.State.Members.{remove_member, list_members}
use syncpond.State.Rooms.{BucketDef, load_room_data, unload_room, is_room_loaded}
use syncpond.State.Rooms.Lifecycle.{
  is_declared, from_disk, entry_at-load_room_data, unload_room-refuses,
}
use syncpond.State.Fragments.{set_fragment, del_fragment, get_fragment}
use syncpond.State.Fragments.Entries.{entry_at}
use syncpond.Tests.Values.{Value, number, value_json}
use syncpond.Tests.Rooms.{app, room, room_found}

abbrev defs : List BucketDef
defs = (0, none, 0) ∷ (4, some "scores", 1) ∷ []

-- Bucket 7 has no record.
abbrev fragments : HashMap ℕ (HashMap String Value)
fragments = (4, ("x", number 1) ∷ []) ∷ (7, ("y", number 2) ∷ []) ∷ []

entry_at-load_room_data_example :
    (app' : AppState Value) × (room' : RoomState Value) × (load_room_data 1 defs
        ("bob" ∷ [])
        fragments
        app
      ≡ ok app')
    × ((n : ℕ) → room_of n app' ≡ (if 1 == n then ok room' else room_of n app))
    × (room'.loaded ≡ true)
    × (room'.members ≡ "bob" ∷ [])
    × (room'.room_counter ≡ 2)
    × ((b : ℕ) (k : String)
        → entry_at b k room' ≡ (
            if is_declared b defs
            then from_disk (get k (unwrap_or (get b fragments) []))
            else none))
entry_at-load_room_data_example =
    entry_at-load_room_data 1 defs ("bob" ∷ []) fragments app room room_found

unload_room-refuses_example :
    (app' : AppState Value) × (unload_room 1 app ≡ ok app')
    × (is_room_loaded 1 app' ≡ false)
    × ((b : ℕ) (k : String) (v : Value)
        → (set_fragment 1 b k v app' ≡ err room_not_loaded)
          × (del_fragment 1 b k app' ≡ err room_not_loaded)
          × (get_fragment 1 b k app' ≡ err room_not_loaded))
    × (list_members 1 app' ≡ err room_not_loaded)
    × ((member : String) → remove_member 1 member app' ≡ err room_not_loaded)
unload_room-refuses_example = unload_room-refuses 1 app room room_found refl
