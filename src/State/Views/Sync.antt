-- ===== src/State/Views/Sync.antt =====
-- A client that holds a snapshot and applies the delta since the snapshot's version.
use syncpond.Base.{
  ℕ, ◌+◌, ◌≤◌, ◌<◌, String, ◌≡◌, refl, Option, none, some, List, [], ◌∷◌, arith, length, ◌⊎◌, inl,
  u64_mod, if◌then◌else◌,
}
use syncpond.Base.Eq.{nat_eq, string_eq}
use syncpond.Base.HashSet.{HashSet}
use syncpond.Extern.Json.{Json}
use syncpond.State.{RoomCommand, set, del, RoomState}
use syncpond.State.Fragments.{write_entry}
use syncpond.State.Fragments.Entries.{entry_at, entry_at-write_entry}
use syncpond.State.Fragments.Versions.{
  version_of, IsVersioned, room_counter-write_entry, IsVersioned-write_entry,
}
use syncpond.State.Transactions.{apply_command, drain}
use syncpond.State.Views.{RoomView, snapshot_of_room, delta_of_room}
use syncpond.State.Views.Exact.{view_at, view_at-snapshot, view_at-delta}

module _ {V : Type 0} where
  -- Each entry of `new` is the one in `old`, or newer than `version`.
  abbrev SinceThen : ℕ → RoomState V → RoomState V → Type 0
  SinceThen version old new =
      (b : ℕ) (k : String)
      → (entry_at b k new ≡ entry_at b k old) ⊎ (version < version_of (entry_at b k new))

  SinceThen-write_entry :
      (version b : ℕ) (k : String) (v : V) (old new : RoomState V)
      → version ≤ new.room_counter
      → new.room_counter + 1 < u64_mod
      → SinceThen version old new
      → SinceThen version old (write_entry b k v new)
  SinceThen-write_entry version b k v old new le bound h c j =
      ground (arith, entry_at-write_entry b c k j v new, h c j)

module _ {V : Type 0} ⦃J : Json V⦄ where
  -- A run of commands: what a run of writes keeps, and the counter that it reaches.
  pub record Drained (version : ℕ) (old new : RoomState V) : Type 0 where
    pub versioned : IsVersioned new
    pub since : SinceThen version old new
    pub later : version ≤ new.room_counter

  Drained-apply_command :
      (version : ℕ) (c : RoomCommand V) (old new : RoomState V)
      → new.room_counter + 1 < u64_mod
      → Drained version old new
      → Drained version old (apply_command new c)
        × ((apply_command new c).room_counter ≡ new.room_counter + 1)
  unfolding apply_command
  Drained-apply_command version (set b k v) old new bound h = (
    record {
      versioned = IsVersioned-write_entry b k v new bound h.versioned;
      since = SinceThen-write_entry version b k v old new h.later bound h.since;
      later = omega (arith, h.later, room_counter-write_entry b k v new bound);
    },
    room_counter-write_entry b k v new bound,
  )
  Drained-apply_command version (del b k) old new bound h = (
    record {
      versioned = IsVersioned-write_entry b k J.null new bound h.versioned;
      since = SinceThen-write_entry version b k J.null old new h.later bound h.since;
      later = omega (arith, h.later, room_counter-write_entry b k J.null new bound);
    },
    room_counter-write_entry b k J.null new bound,
  )

  Drained-drain :
      (version : ℕ) (cs : List (RoomCommand V)) (old new : RoomState V)
      → new.room_counter + length cs < u64_mod
      → Drained version old new
      → Drained version old (drain new cs)
        × ((drain new cs).room_counter ≡ new.room_counter + length cs)
  unfolding drain
  Drained-drain version [] old new bound h = (h, omega arith)
  Drained-drain version (c ∷ cs) old new bound h =
      let (step, count) = Drained-apply_command version c old new (omega arith) h in
      let (rest, total) =
        Drained-drain version cs old (apply_command new c) (omega (arith, count)) step in
      (rest, omega (arith, count, total))

  -- After a run of commands with no wrap-around the counter has grown by their number, and what
  -- was well formed still is.
  pub drain-IsVersioned :
      (cs : List (RoomCommand V)) (room : RoomState V)
      → room.room_counter + length cs < u64_mod
      → IsVersioned room
      → Drained room.room_counter room (drain room cs)
        × ((drain room cs).room_counter ≡ room.room_counter + length cs)
  drain-IsVersioned cs room bound h =
      Drained-drain room.room_counter cs room room bound
        (record { versioned = h; since = λ b k. inl refl; later = omega arith })

  -- What the client shows for a key after it applied the delta to its snapshot: a value that the
  -- delta brings replaces the old one, and null deletes the key.
  abbrev pub patched : RoomView V → RoomView V → ℕ → String → Option V
  patched snapshot delta b k = elim (view_at b k delta) [
    | none ↦ view_at b k snapshot
    | some v ↦ if J.is_null v then none else some v
  ]

  pub patch_room :
      (allowed : HashSet ℕ) (version : ℕ) (old new : RoomState V) (b : ℕ) (k : String)
      → IsVersioned old
      → version_of (entry_at b k old) ≤ version
      → Drained version old new
      → patched (snapshot_of_room allowed old) (delta_of_room version allowed new) b k
        ≡ view_at b k (snapshot_of_room allowed new)
  patch_room allowed version old new b k h v d = ground (
    arith,
    view_at-snapshot allowed old b k h.table,
    view_at-snapshot allowed new b k d.versioned.table,
    view_at-delta version allowed new b k d.versioned.table (d.versioned.versions b k),
    d.since b k,
  )
