-- ===== src/State/Fragments/Entries.antt =====
-- A room as a table from a bucket and a key to an entry, and what a write does to the table.
use syncpond.Base.{
  ℕ, String, ◌≡◌, ◌&&◌, Option, none, some, [], arith, ok, err, wrapping_add, unwrap_or,
  if◌then◌else◌,
}
use syncpond.Base.Eq.{nat_eq, string_eq, ◌==◌, ==_iff}
use syncpond.Base.HashMap.{get, insert, get-insert}
use syncpond.Extern.Json.{Json}
use syncpond.State.{FragmentEntry, Fragments, RoomState, Outcome}
use syncpond.State.Errors.{fragment_not_found, fragment_tombstone}
use syncpond.State.Members.{usable}
use syncpond.State.Fragments.{write_entry, get_in_room}

module _ {V : Type 0} where
  unfoldable pub in_bucket : String → Option (Fragments V) → Option (FragmentEntry V)
  unfolding get
  in_bucket key none = none
  in_bucket key (some fragments) = get key fragments

  -- The entry of a key in a bucket.
  unfoldable pub entry_at : ℕ → String → RoomState V → Option (FragmentEntry V)
  unfolding in_bucket
  entry_at bucket_id key room = in_bucket key (get bucket_id room.buckets)

  -- A write changes the entry of its own key in its own bucket, and no other.
  pub entry_at-write_entry :
      (b c : ℕ) (k j : String) (v : V) (room : RoomState V)
      → entry_at c j (write_entry b k v room) ≡ (
          if b == c && k == j
          then some (record { value = v; key_version = wrapping_add room.room_counter 1 })
          else entry_at c j room)
  unfolding entry_at write_entry
  entry_at-write_entry b c k j v room =
      let entry : FragmentEntry V = record {
        value = v;
        key_version = wrapping_add room.room_counter 1;
      } in
      let old : Fragments V = unwrap_or (get b room.buckets) [] in
      ground (
        arith,
        get-insert b c (insert k entry old) room.buckets,
        get-insert k j entry old,
        ==_iff b c,
      )

-- What `get_fragment` answers for an entry of a bucket that is there.
abbrev pub answer : {V : Type 0} ⦃J : Json V⦄ → Option (FragmentEntry V) → Outcome (V × ℕ)
answer none = err fragment_not_found
answer ⦃J⦄ (some e) =
    if J.is_null e.value then err fragment_tombstone else ok (e.value, e.key_version)

module _ {V : Type 0} ⦃J : Json V⦄ where
  pub get_in_room-entry_at :
      (b : ℕ) (k : String) (e : FragmentEntry V) (room : RoomState V)
      → usable room ≡ ok tt
      → entry_at b k room ≡ some e
      → get_in_room b k room ≡ answer (some e)
  unfolding get_in_room entry_at
  get_in_room-entry_at b k e room u h = ground arith
