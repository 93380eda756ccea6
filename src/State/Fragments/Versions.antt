-- ===== src/State/Fragments/Versions.antt =====
-- The table of a room is a map of maps, and no entry is newer than the room's counter.
use syncpond.Base.{
  ℕ, ◌+◌, ◌≤◌, ◌<◌, String, ◌≡◌, Option, none, some, [], arith, unwrap_or, wrapping_add, u64_mod,
}
use syncpond.Base.Eq.{nat_eq, string_eq}
use syncpond.Base.HashMap.{HashMap, get, insert}
use syncpond.Base.HashMap.Unique.{IsMap, Values, IsMap-insert, Values-insert, Values-get}
use syncpond.State.{FragmentEntry, Fragments, RoomState}
use syncpond.State.Fragments.{write_entry}
use syncpond.State.Fragments.Entries.{entry_at, entry_at-write_entry}

-- The version of an entry; 0 where there is none.
abbrev pub version_of : {V : Type 0} → Option (FragmentEntry V) → ℕ
version_of none = 0
version_of (some e) = e.key_version

module _ {V : Type 0} where
  -- The buckets, and the fragments of each, have each key once.
  abbrev pub IsTable : HashMap ℕ (Fragments V) → Type 0
  IsTable buckets = IsMap buckets × Values IsMap buckets

  pub record IsVersioned (room : RoomState V) : Type 0 where
    pub table : IsTable room.buckets
    pub versions : (b : ℕ) (k : String) → version_of (entry_at b k room) ≤ room.room_counter

  module _ (b : ℕ) (k : String) (v : V) (room : RoomState V) where
    pub room_counter-write_entry :
        room.room_counter + 1 < u64_mod
        → (write_entry b k v room).room_counter ≡ room.room_counter + 1
    unfolding write_entry
    room_counter-write_entry bound = omega arith

    IsTable-write_entry : IsTable room.buckets → IsTable (write_entry b k v room).buckets
    unfolding write_entry
    IsTable-write_entry h =
        let entry : FragmentEntry V = record {
          value = v;
          key_version = wrapping_add room.room_counter 1;
        } in
        let old : Fragments V = unwrap_or (get b room.buckets) [] in
        let old_map : IsMap old = Values-get IsMap b room.buckets [] tt h.1 in
        let new : Fragments V = insert k entry old in
        (
          IsMap-insert b new room.buckets h.0,
          Values-insert IsMap b new room.buckets (IsMap-insert k entry old old_map) h.1,
        )

    -- A write keeps this, short of the counter's wrap-around.
    pub IsVersioned-write_entry :
        room.room_counter + 1 < u64_mod → IsVersioned room → IsVersioned (write_entry b k v room)
    IsVersioned-write_entry bound h = record {
      table = IsTable-write_entry h.table;
      versions = λ c j. ground (
        arith,
        entry_at-write_entry b c k j v room,
        room_counter-write_entry bound,
        h.versions c j,
      );
    }
