-- ===== src/State/Access.antt =====
-- How a method reaches its room: `room_of`, `put_room` and `update_room`.
use syncpond.Base.{ℕ, ◌≡◌, true, false, ok, ◌>>=◌, >>=-eq-ok, arith, if◌then◌else◌}
use syncpond.Base.Eq.{nat_eq, ◌==◌}
use syncpond.Base.HashMap.{contains_key, get-insert}
use syncpond.State.{RoomState, RwLock, AppState, Outcome, room_of, put_room, update_room}

module _ {V : Type 0} where
  -- A write reaches its own room and no other.
  pub room_of-put_room :
      (i j : ℕ) (room : RoomState V) (app : AppState V)
      → room_of j (put_room i room app) ≡ (if i == j then ok room else room_of j app)
  unfolding room_of put_room
  room_of-put_room i j room app =
      let lock : RwLock (RoomState V) = record { content = room; poisoned = false } in
      ground (arith, get-insert i j lock app.rooms)

  pub room_of-put_room_self :
      (i : ℕ) (room : RoomState V) (app : AppState V) → room_of i (put_room i room app) ≡ ok room
  room_of-put_room_self i room app = ground (arith, room_of-put_room i i room app)

  pub contains_of_room :
      (i : ℕ) (room : RoomState V) (app : AppState V)
      → room_of i app ≡ ok room
      → contains_key i app.rooms ≡ true
  unfolding room_of contains_key
  contains_of_room i room app h = ground arith

  pub update_room_at :
      (i : ℕ) (f : RoomState V → Outcome (RoomState V)) (app : AppState V) (room : RoomState V)
      → room_of i app ≡ ok room
      → update_room i f app ≡ (f room >>= λ r. ok (put_room i r app))
  unfolding update_room
  update_room_at i f app room h = rw h

  -- A method that succeeded found its room, and its result is the room rewritten.
  pub update_room-eq-ok :
      (i : ℕ) (f : RoomState V → Outcome (RoomState V)) (app app' : AppState V)
      → update_room i f app ≡ ok app'
      → (room : RoomState V) × (room' : RoomState V) × (room_of i app ≡ ok room)
        × (f room ≡ ok room')
        × (app' ≡ put_room i room' app)
  unfolding update_room
  update_room-eq-ok i f app app' h =
      let (room, found, rest) = >>=-eq-ok (room_of i app) _ h in
      let (room', changed, same) = >>=-eq-ok (f room) _ rest in (room, room', found, changed, cc)
