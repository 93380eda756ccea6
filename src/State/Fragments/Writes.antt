-- ===== src/State/Fragments/Writes.antt =====
-- What a client reads after a write or a deletion outside a transaction.
use syncpond.Base.{
  ℕ, String, ◌≡◌, true, false, ◌&&◌, none, some, arith, ok, err, wrapping_add, if◌then◌else◌,
}
use syncpond.Base.Eq.{nat_eq, string_eq, ◌==◌, ==_refl}
use syncpond.Base.HashMap.{contains_key}
use syncpond.Extern.Json.{Json}
use syncpond.State.{RoomState, AppState, room_of, put_room}
use syncpond.State.Errors.{fragment_tombstone}
use syncpond.State.Access.{room_of-put_room, room_of-put_room_self, update_room-eq-ok}
use syncpond.State.Members.{usable}
use syncpond.State.Fragments.{
  write_entry, set_in_room, set_fragment, del_in_room, del_fragment, get_fragment, room_version,
}
use syncpond.State.Fragments.Entries.{entry_at, entry_at-write_entry, answer, get_in_room-entry_at}

module _ {V : Type 0} ⦃J : Json V⦄ where
  -- The app after one direct write in room `i`: its table has the one new entry under the next
  -- version, which is the room's version, and the other rooms are as before.
  pub record Wrote (i b : ℕ) (k : String) (v : V) (room : RoomState V) (app app' : AppState V)
      : Type 0 where
    pub next : RoomState V
    pub table :
        (c : ℕ) (j : String)
        → entry_at c j next ≡ (
            if b == c && k == j
            then some (record { value = v; key_version = wrapping_add room.room_counter 1 })
            else entry_at c j room)
    pub version : room_version i app' ≡ ok (wrapping_add room.room_counter 1)
    pub rooms : (n : ℕ) → room_of n app' ≡ (if i == n then ok next else room_of n app)

  Wrote-put_room :
      (i b : ℕ) (k : String) (v : V) (room : RoomState V) (app : AppState V)
      → room.io_locked ≡ false
      → Wrote i b k v room app (put_room i (write_entry b k v room) app)
  unfolding write_entry room_version
  Wrote-put_room i b k v room app h = record {
    next = write_entry b k v room;
    table = λ c j. entry_at-write_entry b c k j v room;
    version = ground (arith, room_of-put_room_self i (write_entry b k v room) app);
    rooms = λ n. room_of-put_room i n (write_entry b k v room) app;
  }

  set_in_room-eq-ok :
      (b : ℕ) (k : String) (v : V) (room room' : RoomState V)
      → room.tx_buffer ≡ none
      → set_in_room b k v room ≡ ok room'
      → (room.io_locked ≡ false) × (room.loaded ≡ true) × (room' ≡ write_entry b k v room)
  unfolding set_in_room
  set_in_room-eq-ok b k v room room' t h = ground arith

  del_in_room-eq-ok :
      (b : ℕ) (k : String) (room room' : RoomState V)
      → room.tx_buffer ≡ none
      → del_in_room b k room ≡ ok room'
      → (room.io_locked ≡ false)
        × (room.loaded ≡ true)
        × (contains_key b room.buckets ≡ true)
        × (room' ≡ write_entry b k J.null room)
  unfolding del_in_room
  del_in_room-eq-ok b k room room' t h = ground arith

  get-write_entry :
      (i b : ℕ) (k : String) (v : V) (room : RoomState V) (app : AppState V)
      → room.io_locked ≡ false
      → room.loaded ≡ true
      → get_fragment i b k (put_room i (write_entry b k v room) app)
        ≡ answer (some (record { value = v; key_version = wrapping_add room.room_counter 1 }))
  unfolding get_fragment usable
  get-write_entry i b k v room app busy loaded =
      rw (room_of-put_room_self i (write_entry b k v room) app)
        (get_in_room-entry_at b k _ (write_entry b k v room) (ready busy loaded) here)
    where
      ready : room.io_locked ≡ false → room.loaded ≡ true → usable (write_entry b k v room) ≡ ok tt
      ready p q = unfold write_entry in ground arith

      here :
          entry_at b k (write_entry b k v room)
          ≡ some (record { value = v; key_version = wrapping_add room.room_counter 1 })
      here = ground (arith, entry_at-write_entry b b k k v room, ==_refl b, ==_refl k)

  -- A `set_fragment` that succeeds outside a transaction gives the key the value under the room's
  -- next version: `get_fragment` returns both (or reports a tombstone, if the value is null),
  -- `room_version` is that version, and no other key, bucket or room is changed.
  pub get-set_fragment :
      (i b : ℕ) (k : String) (v : V) (room : RoomState V) (app app' : AppState V)
      → room_of i app ≡ ok room
      → room.tx_buffer ≡ none
      → set_fragment i b k v app ≡ ok app'
      → (get_fragment i b k app'
          ≡ answer (some (record { value = v; key_version = wrapping_add room.room_counter 1 })))
        × Wrote i b k v room app app'
  unfolding set_fragment
  get-set_fragment i b k v room app app' found closed h =
      let (r, r', at_i, changed, same) = update_room-eq-ok i (set_in_room b k v) app app' h in
      let r_is : r ≡ room = cc in
      let (busy, loaded, wrote) = set_in_room-eq-ok b k v room r' closed (rw (← r_is) changed) in
      rw (same, wrote)
        (get-write_entry i b k v room app busy loaded, Wrote-put_room i b k v room app busy)

  -- A `del_fragment` that succeeds outside a transaction was asked for a bucket that exists. It
  -- leaves a tombstone under the room's next version: `get_fragment` reports it, also if the key
  -- was not there before, and no other key, bucket or room is changed.
  pub get-del_fragment :
      (i b : ℕ) (k : String) (room : RoomState V) (app app' : AppState V)
      → room_of i app ≡ ok room
      → room.tx_buffer ≡ none
      → del_fragment i b k app ≡ ok app'
      → (contains_key b room.buckets ≡ true)
        × (get_fragment i b k app' ≡ err fragment_tombstone)
        × Wrote i b k J.null room app app'
  unfolding del_fragment
  get-del_fragment i b k room app app' found closed h =
      let (r, r', at_i, changed, same) = update_room-eq-ok i (del_in_room b k) app app' h in
      let r_is : r ≡ room = cc in
      let (busy, loaded, there, wrote) =
        del_in_room-eq-ok b k room r' closed (rw (← r_is) changed) in
      (
        there,
        rw (same, wrote)
            (ground (arith, get-write_entry i b k J.null room app busy loaded, J.is_null-null)),
        rw (same, wrote) (Wrote-put_room i b k J.null room app busy),
      )
