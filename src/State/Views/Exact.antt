-- ===== src/State/Views/Exact.antt =====
-- What a snapshot and a delta show of each key of each bucket.
use text.Mathlib.TextLemmas.{append_cancel_left}
use syncpond.Base.{
  ℕ, ◌≤◌, String, ◌≡◌, refl, Bool, true, not, ◌&&◌, ◌||◌, Option, none, some, [], ◌∷◌, arith, ltb,
  is_empty, unwrap_or, if◌then◌else◌,
}
use syncpond.Base.Eq.{nat_eq, string_eq, ◌==◌, ==_iff, ==_injective}
use syncpond.Base.HashMap.{HashMap, get, get-insert}
use syncpond.Base.HashMap.Unique.{IsMap, Values-get}
use syncpond.Base.HashSet.{HashSet, contains}
use syncpond.Base.Text.Decimal.RoundTrip.{to_string_injective}
use syncpond.Extern.Json.{Json}
use syncpond.State.{FragmentEntry, Fragments, RoomState, server_only_bucket_id}
use syncpond.State.Fragments.Entries.{entry_at}
use syncpond.State.Fragments.Versions.{IsTable, version_of}
use syncpond.State.Views.{
  RoomView, bucket_name, live, newer, snapshot_buckets, delta_buckets, snapshot_of_room,
  delta_of_room,
}

-- Different buckets have different names.
bucket_name_eq : (b c : ℕ) → (bucket_name b == bucket_name c) ≡ (b == c)
unfolding bucket_name
bucket_name_eq b c =
    ==_injective bucket_name b c λ p. to_string_injective b c (append_cancel_left "bucket_" _ _ p)

-- The buckets that a client with the grant `allowed` may see.
abbrev pub is_visible : HashSet ℕ → ℕ → Bool
is_visible allowed b = not (b == server_only_bucket_id) && (b == 0 || contains b allowed)

-- What a view shows of a key.
unfoldable pub view_at : {V : Type 0} → ℕ → String → RoomView V → Option V
unfolding get
view_at b k view = elim (get (bucket_name b) view.buckets) [ none ↦ none | some m ↦ get k m ]

module _ {V : Type 0} where
  abbrev pub newer_value : ℕ → Option (FragmentEntry V) → Option V
  newer_value since none = none
  newer_value since (some e) = if ltb since e.key_version then some e.value else none

  get-newer :
      (since : ℕ) (k : String) (m : Fragments V)
      → IsMap m
      → get k (newer since m) ≡ newer_value since (get k m)
  unfolding newer get
  get-newer since k [] h = refl
  get-newer since k ((j, e) ∷ m) h =
      ground (arith, get-newer since k m h.1, get-insert j k e.value (newer since m), ==_iff j k)

module _ {V : Type 0} ⦃J : Json V⦄ where
  abbrev pub live_value : Option (FragmentEntry V) → Option V
  live_value none = none
  live_value (some e) = if J.is_null e.value then none else some e.value

  get-live : (k : String) (m : Fragments V) → IsMap m → get k (live m) ≡ live_value (get k m)
  unfolding live get
  get-live k [] h = refl
  get-live k ((j, e) ∷ m) h =
      ground (arith, get-live k m h.1, get-insert j k e.value (live m), ==_iff j k)

  -- The empty bucket is shown as an empty object.
  abbrev live_bucket : Option (Fragments V) → Option (HashMap String V)
  live_bucket none = none
  live_bucket (some m) = some (live m)

  get-snapshot_buckets :
      (allowed : HashSet ℕ) (b : ℕ) (m : HashMap ℕ (Fragments V))
      → IsMap m
      → get (bucket_name b) (snapshot_buckets allowed m)
        ≡ (if is_visible allowed b then live_bucket (get b m) else none)
  unfolding snapshot_buckets get
  get-snapshot_buckets allowed b [] h = ground arith
  get-snapshot_buckets allowed b ((c, fragments) ∷ m) h =
      let rest = snapshot_buckets allowed m in
      ground (
        arith,
        get-snapshot_buckets allowed b m h.1,
        get-insert (bucket_name c) (bucket_name b) (live fragments) rest,
        bucket_name_eq c b,
        ==_iff c b,
      )

module _ {V : Type 0} where
  abbrev newer_bucket : ℕ → Option (Fragments V) → Option (HashMap String V)
  newer_bucket since none = none
  newer_bucket since (some m) = if is_empty (newer since m) then none else some (newer since m)

  get-delta_buckets :
      (since : ℕ) (allowed : HashSet ℕ) (b : ℕ) (m : HashMap ℕ (Fragments V))
      → IsMap m
      → get (bucket_name b) (delta_buckets since allowed m)
        ≡ (if is_visible allowed b then newer_bucket since (get b m) else none)
  unfolding delta_buckets get
  get-delta_buckets since allowed b [] h = ground arith
  get-delta_buckets since allowed b ((c, fragments) ∷ m) h =
      let rest = delta_buckets since allowed m in
      ground (
        arith,
        get-delta_buckets since allowed b m h.1,
        get-insert (bucket_name c) (bucket_name b) (newer since fragments) rest,
        bucket_name_eq c b,
        ==_iff c b,
      )

module _ {V : Type 0} ⦃J : Json V⦄ where
  -- A snapshot shows exactly the entries of the visible buckets that are no tombstones. Visible
  -- are bucket 0 and the granted buckets, but never the server-only bucket.
  pub view_at-snapshot :
      (allowed : HashSet ℕ) (room : RoomState V) (b : ℕ) (k : String)
      → IsTable room.buckets
      → view_at b k (snapshot_of_room allowed room)
        ≡ (if is_visible allowed b then live_value (entry_at b k room) else none)
  unfolding view_at snapshot_of_room entry_at
  view_at-snapshot allowed room b k h =
      let inner : IsMap (unwrap_or (get b room.buckets) []) =
        Values-get IsMap b room.buckets [] tt h.1 in
      ground (
        arith,
        get-snapshot_buckets allowed b room.buckets h.0,
        get-live k (unwrap_or (get b room.buckets) []) inner,
      )

module _ {V : Type 0} where
  empty_value : (k : String) (m : HashMap String V) → is_empty m ≡ true → get k m ≡ none
  unfolding get
  empty_value k [] h = refl
  empty_value k (e ∷ m) h = cc

  -- A delta shows exactly the entries of the visible buckets whose version is past `since`,
  -- tombstones included; the early return for an up-to-date client loses nothing, since no entry
  -- is newer than the room's counter.
  pub view_at-delta :
      (since : ℕ) (allowed : HashSet ℕ) (room : RoomState V) (b : ℕ) (k : String)
      → IsTable room.buckets
      → version_of (entry_at b k room) ≤ room.room_counter
      → view_at b k (delta_of_room since allowed room)
        ≡ (if is_visible allowed b then newer_value since (entry_at b k room) else none)
  unfolding view_at delta_of_room entry_at
  view_at-delta since allowed room b k h v =
      let m = unwrap_or (get b room.buckets) [] in
      let inner : IsMap m = Values-get IsMap b room.buckets [] tt h.1 in
      ground (
        arith,
        get-delta_buckets since allowed b room.buckets h.0,
        get-newer since k m inner,
        empty_value k (newer since m),
      )

  pub room_counter-delta :
      (since : ℕ) (allowed : HashSet ℕ) (room : RoomState V)
      → (delta_of_room since allowed room).room_counter ≡ room.room_counter
  unfolding delta_of_room
  room_counter-delta since allowed room = ground arith

pub room_counter-snapshot :
    {V : Type 0} ⦃J : Json V⦄ (allowed : HashSet ℕ) (room : RoomState V)
    → (snapshot_of_room allowed room).room_counter ≡ room.room_counter
unfolding snapshot_of_room
room_counter-snapshot allowed room = refl
