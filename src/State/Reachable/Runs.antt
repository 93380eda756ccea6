-- ===== src/State/Reachable/Runs.antt =====
-- What holds after any sequence of calls from `AppState::new`.
use native.Mathlib.Nat.{add-zero, zero-add}
use syncpond.Base.{
  ℕ, suc, ◌+◌, ◌<◌, String, ◌≡◌, refl, ◌∙◌, true, false, none, some, List, [], ◌∷◌, arith, ok,
  Bool-cases, inl, inr, u64_mod, length, leb, if◌then◌else◌,
}
use syncpond.Base.Eq.{nat_eq, string_eq, ◌==◌}
use syncpond.Base.HashMap.{HashMap, get, contains_key, keys, get-insert}
use syncpond.Base.HashMap.Unique.{Values-at, Below-contains}
use syncpond.Base.Text.{trim}
use syncpond.Base.HashSet.{HashSet, contains}
use syncpond.Base.Sort.Order.{IsAscending, sort_unstable-IsAscending, contains-sort_unstable}
use syncpond.Extern.Json.{Json}
use syncpond.State.{RoomState, AppState, room_of}
use syncpond.State.Config.{new}
use syncpond.State.Rooms.{new_room, create_room, list_rooms}
use syncpond.State.Labels.{get_room_id_by_label}
use syncpond.State.Fragments.Entries.{entry_at}
use syncpond.State.Fragments.Versions.{IsVersioned}
use syncpond.State.Views.{RoomView, room_snapshot, room_delta, snapshot_of_room, delta_of_room}
use syncpond.State.Views.Exact.{
  view_at, is_visible, live_value, newer_value, room_counter-snapshot, room_counter-delta,
  view_at-snapshot, view_at-delta,
}
use syncpond.State.Reachable
use syncpond.State.Reachable.{Call, run}
use syncpond.State.Reachable.RoomInvariant.{RoomInv}
use syncpond.State.Reachable.AppInvariant.{AppInv}
use syncpond.State.Reachable.Calls.{step-AppInv}

module _ {V : Type 0} ⦃J : Json V⦄ where
  run-AppInv :
      (n : ℕ) (cs : List (Call V)) (app : AppState V)
      → n + length cs + 1 < u64_mod
      → AppInv n app
      → AppInv (n + length cs) (run cs app)
  unfolding run
  run-AppInv n [] app bound h = rw add-zero h
  run-AppInv n (c ∷ cs) app bound h =
      let shift : n + suc (length cs) ≡ suc n + length cs = omega arith in
      rw shift (
        run-AppInv (suc n) cs (Reachable.step c app) (omega arith)
          (step-AppInv n c app (omega arith) h))

  new-AppInv : AppInv 0 (new {V = V})
  unfolding new room_of get
  new-AppInv = record { rooms = λ i. tt; unique = tt; fresh = tt; ids = omega arith; owned = tt }

  -- After any sequence of fewer than 2 ^ 64 - 1 calls, failing ones included: every room's table
  -- has each bucket and key once and no entry newer than the room's counter; the counter, with
  -- what an open transaction holds, is at most the number of calls, so that it never wrapped; the
  -- next room id is above every room's; and each label belongs to a room that exists.
  pub run-new-AppInv :
      (cs : List (Call V)) → length cs + 1 < u64_mod → AppInv (length cs) (run cs new)
  run-new-AppInv cs bound = rw zero-add at (run-AppInv 0 cs new (omega arith) new-AppInv)

  room-IsVersioned :
      (n i : ℕ) (app : AppState V) (room : RoomState V)
      → AppInv n app
      → room_of i app ≡ ok room
      → IsVersioned room
  room-IsVersioned n i app room h found =
      let inv : RoomInv n room = rw found at (h.rooms i) in inv.versioned

  -- In every state that fewer than 2 ^ 64 - 1 calls reach, a room that can be read has each bucket
  -- and key once, and no entry newer than its counter.
  pub run-new-IsVersioned :
      (cs : List (Call V)) (i : ℕ) (room : RoomState V)
      → length cs + 1 < u64_mod
      → room_of i (run cs new) ≡ ok room
      → IsVersioned room
  run-new-IsVersioned cs i room bound found =
      room-IsVersioned (length cs) i (run cs new) room (run-new-AppInv cs bound) found

  not_below :
      (n : ℕ) (app : AppState V) → AppInv n app → contains_key app.next_room_id app.rooms ≡ false
  not_below n app h = elim (Bool-cases (contains_key app.next_room_id app.rooms)) [
    | inl there ↦
        absurd
          (omega (arith, Below-contains app.next_room_id app.next_room_id app.rooms h.fresh there))
    | inr new_id ↦ new_id
  ]

  room_of-create_room :
      (i : ℕ) (app : AppState V)
      → room_of i (create_room app).1
        ≡ (if (create_room app).0 == i then ok new_room else room_of i app)
  unfolding room_of create_room
  room_of-create_room i app = ground (
    arith,
    get-insert app.next_room_id i (record { content = new_room; poisoned = false }) app.rooms,
  )

  fst-create_room : (app : AppState V) → (create_room app).0 ≡ app.next_room_id
  unfolding create_room
  fst-create_room app = refl

  -- In every state that fewer than 2 ^ 64 - 1 calls reach, `create_room` returns an id that no
  -- room has, so it overwrites none: the room of that id is the empty one, loaded and at version
  -- 0, and all other rooms are as before.
  pub create_room-run :
      (cs : List (Call V))
      → length cs + 1 < u64_mod
      → let app = run cs new in
        (contains_key (create_room app).0 app.rooms ≡ false)
        × ((i : ℕ)
            → room_of i (create_room app).1
              ≡ (if (create_room app).0 == i then ok new_room else room_of i app))
  create_room-run cs bound = (
    rw fst-create_room (not_below (length cs) (run cs new) (run-new-AppInv cs bound)),
    λ i. room_of-create_room i (run cs new),
  )

  -- In every state that fewer than 2 ^ 64 - 1 calls reach, a label that resolves at all resolves
  -- to a room that exists.
  pub get_room_id_by_label-run :
      (cs : List (Call V)) (label : String) (i : ℕ)
      → length cs + 1 < u64_mod
      → get_room_id_by_label label (run cs new) ≡ ok i
      → contains_key i (run cs new).rooms ≡ true
  unfolding get_room_id_by_label
  get_room_id_by_label-run cs label i bound found =
      let app = run cs new in
      Values-at (λ j. contains_key j app.rooms ≡ true) (trim label) i app.labels
        (run-new-AppInv cs bound).owned (ground arith)

  -- In every state that fewer than 2 ^ 64 - 1 calls reach, `room_snapshot` answers for each room
  -- that can be read, with its version and exactly the entries of the visible buckets that are no
  -- tombstones. Visible are bucket 0 and the granted buckets, never the server-only bucket,
  -- whatever is granted.
  pub room_snapshot-run :
      (cs : List (Call V)) (i : ℕ) (room : RoomState V) (allowed : HashSet ℕ)
      → length cs + 1 < u64_mod
      → room_of i (run cs new) ≡ ok room
      → (view : RoomView V) × (room_snapshot i allowed (run cs new) ≡ some view)
        × (view.room_counter ≡ room.room_counter)
        × ((b : ℕ) (k : String)
            → view_at b k view
              ≡ (if is_visible allowed b then live_value (entry_at b k room) else none))
  unfolding room_snapshot
  room_snapshot-run cs i room allowed bound found =
      let sound = run-new-IsVersioned cs i room bound found in
      (
        snapshot_of_room allowed room,
        rw found,
        room_counter-snapshot allowed room,
        λ b k. view_at-snapshot allowed room b k sound.table,
      )

  -- In every state that fewer than 2 ^ 64 - 1 calls reach, `room_delta` since a version answers
  -- for each room that can be read, with its version and exactly the entries of the visible
  -- buckets that are newer, tombstones included.
  pub room_delta-run :
      (cs : List (Call V)) (i since : ℕ) (room : RoomState V) (allowed : HashSet ℕ)
      → length cs + 1 < u64_mod
      → room_of i (run cs new) ≡ ok room
      → (view : RoomView V) × (room_delta i since allowed (run cs new) ≡ some view)
        × (view.room_counter ≡ room.room_counter)
        × ((b : ℕ) (k : String)
            → view_at b k view
              ≡ (if is_visible allowed b then newer_value since (entry_at b k room) else none))
  unfolding room_delta
  room_delta-run cs i since room allowed bound found =
      let sound = run-new-IsVersioned cs i room bound found in
      (
        delta_of_room since allowed room,
        rw found,
        room_counter-delta since allowed room,
        λ b k. view_at-delta since allowed room b k sound.table (sound.versions b k),
      )

pub contains-keys {ℓ} :
    {A : Type ℓ} (i : ℕ) (m : HashMap ℕ A) → contains i (keys m) ≡ contains_key i m
unfolding contains contains_key get
contains-keys i [] = refl
contains-keys i ((j, a) ∷ m) = ground (arith, contains-keys i m)

module _ {V : Type 0} where
  -- `list_rooms` lists the ids of exactly the rooms that exist, in ascending order.
  pub list_rooms-contains_key :
      (app : AppState V)
      → IsAscending leb (list_rooms app)
        × ((i : ℕ) → contains i (list_rooms app) ≡ contains_key i app.rooms)
  unfolding list_rooms
  list_rooms-contains_key app = (
    sort_unstable-IsAscending (keys app.rooms),
    λ i. contains-sort_unstable i (keys app.rooms) ∙ contains-keys i app.rooms,
  )
