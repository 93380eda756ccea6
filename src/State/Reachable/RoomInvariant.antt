-- ===== src/State/Reachable/RoomInvariant.antt =====
-- The invariant of a room after `n` calls, and what keeps it.
use syncpond.Base.{
  ℕ, suc, ◌+◌, ◌≤◌, ◌<◌, String, ◌≡◌, refl, Option, none, some, List, arith, length, u64_mod,
}
use syncpond.State.{RoomCommand, RoomState}
use syncpond.State.Fragments.{write_entry}
use syncpond.State.Fragments.Entries.{entry_at}
use syncpond.State.Fragments.Versions.{
  IsVersioned, room_counter-write_entry, IsVersioned-write_entry,
}

module _ {V : Type 0} where
  -- The buffered commands, which the end of the transaction will count.
  abbrev pub pending : Option (List (RoomCommand V)) → ℕ
  pending none = 0
  pending (some cs) = length cs

  -- The table is well formed, and the counter, with what is pending, has not passed the number of
  -- calls made: it cannot wrap around before 2 ^ 64 calls.
  pub record RoomInv (n : ℕ) (room : RoomState V) : Type 0 where
    pub versioned : IsVersioned room
    pub budget : room.room_counter + pending room.tx_buffer ≤ n

  abbrev pub SameData : RoomState V → RoomState V → Type 0
  SameData room room' =
      (room'.buckets ≡ room.buckets)
      × (room'.room_counter ≡ room.room_counter)
      × (pending room'.tx_buffer ≤ pending room.tx_buffer + 1)

  pub IsVersioned-same :
      (room room' : RoomState V)
      → room'.buckets ≡ room.buckets
      → room'.room_counter ≡ room.room_counter
      → IsVersioned room
      → IsVersioned room'
  unfolding entry_at
  IsVersioned-same room room' same count h = record {
    table = rw same h.table;
    versions = λ b k. rw (same, count) (h.versions b k);
  }

  -- A call that leaves the data alone keeps the invariant.
  pub RoomInv-same :
      (n : ℕ) (room room' : RoomState V)
      → SameData room room'
      → RoomInv n room
      → RoomInv (suc n) room'
  RoomInv-same n room room' (same, count, more) h = record {
    versioned = IsVersioned-same room room' same count h.versioned;
    budget = omega (arith, h.budget);
  }

  pending-write_entry :
      (b : ℕ) (k : String) (v : V) (room : RoomState V)
      → pending (write_entry b k v room).tx_buffer ≡ pending room.tx_buffer
  unfolding write_entry
  pending-write_entry b k v room = refl

  -- So does one direct write.
  pub RoomInv-write_entry :
      (n b : ℕ) (k : String) (v : V) (room : RoomState V)
      → suc n < u64_mod
      → RoomInv n room
      → RoomInv (suc n) (write_entry b k v room)
  RoomInv-write_entry n b k v room bound h = record {
    versioned = IsVersioned-write_entry b k v room (omega (arith, h.budget)) h.versioned;
    budget = omega (
      arith,
      h.budget,
      room_counter-write_entry b k v room (omega (arith, h.budget)),
      pending-write_entry b k v room,
    );
  }
