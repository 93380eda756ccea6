-- ===== src/Kernel/Reachable/Edits.antt =====
-- The edits of a room by the commands keep the invariant of the room, and so that of the state.
use syncpond.Base.{
  ℕ, suc, ◌≤◌, String, ◌≡◌, refl, Option, none, some, List, [], ◌∷◌, arith, Result, ok, err,
  Bool-cases, inl, inr, unwrap_or,
}
use syncpond.Base.Eq.{nat_eq, string_eq}
use syncpond.Base.HashMap.{HashMap, get, insert, contains_key, get-insert, get-remove}
use syncpond.Base.HashMap.Unique.{
  IsMap, Values, IsMap-insert, IsMap-remove, Values-insert, Values-remove, Values-get,
}
use syncpond.Extern.Json.{Json, Bytes}
use syncpond.State.{Fragments, RoomState, RwLock, AppState, room_of}
use syncpond.State.Access.{contains_of_room}
use syncpond.State.Fragments.Entries.{entry_at}
use syncpond.State.Fragments.Versions.{version_of, IsTable}
use syncpond.State.Reachable.RoomInvariant.{RoomInv, RoomInv-same}
use syncpond.State.Reachable.AppInvariant.{AppInv, AppInv-mono, AppInv-put_room}
use syncpond.Persistence.Rooms.{file_fragment, fragment_of, collect_fragments}
use syncpond.Kernel.{Edited, absent, not_loaded, edited, edit_lock, edit_room}
use syncpond.Kernel.Buckets.{make_bucket, drop_bucket, make_member, drop_member, or_insert}

module _ {V : Type 0} where
  -- An edit that cannot fail, and that keeps the invariant.
  abbrev pub Preserves : (RoomState V → RoomState V) → Type 0
  Preserves change = (n : ℕ) (room : RoomState V) → RoomInv n room → RoomInv (suc n) (change room)

  IsTable-or_insert : (b : ℕ) (m : HashMap ℕ (Fragments V)) → IsTable m → IsTable (or_insert b [] m)
  unfolding or_insert
  IsTable-or_insert b m h = elim (Bool-cases (contains_key b m)) [
    | inl there ↦ rw there h
    | inr fresh ↦ rw fresh (IsMap-insert b [] m h.0, Values-insert IsMap b [] m tt h.1)
  ]

  -- The bucket that is made is empty.
  version-or_insert :
      (b c : ℕ) (k : String) (room : RoomState V)
      → version_of (entry_at c k (record room { buckets = or_insert b [] room.buckets }))
        ≤ version_of (entry_at c k room)
  unfolding entry_at or_insert contains_key get
  version-or_insert b c k room = ground (arith, get-insert b c [] room.buckets)

  pub make_bucket-Preserves : (b : ℕ) (label : String) → Preserves (make_bucket b label)
  unfolding make_bucket entry_at
  make_bucket-Preserves b label n room h = record {
    versioned = record {
      table = IsTable-or_insert b room.buckets h.versioned.table;
      versions = λ c k. omega (arith, version-or_insert b c k room, h.versioned.versions c k);
    };
    budget = omega (arith, h.budget);
  }

  version-remove :
      (b c : ℕ) (k : String) (room : RoomState V)
      → version_of (entry_at c k (drop_bucket b room)) ≤ version_of (entry_at c k room)
  unfolding entry_at drop_bucket
  version-remove b c k room = ground (arith, get-remove b c room.buckets)

  pub drop_bucket-Preserves : (b : ℕ) → Preserves (drop_bucket b)
  unfolding drop_bucket
  drop_bucket-Preserves b n room h = record {
    versioned = record {
      table = (
        IsMap-remove b room.buckets h.versioned.table.0,
        Values-remove IsMap b room.buckets h.versioned.table.1,
      );
      versions = λ c k. omega (arith, version-remove b c k room, h.versioned.versions c k);
    };
    budget = omega (arith, h.budget);
  }

  pub make_member-Preserves : (member : String) → Preserves (make_member member)
  unfolding make_member
  make_member-Preserves member n room h = RoomInv-same n room _ (ground arith) h

  pub drop_member-Preserves : (member : String) → Preserves (drop_member member)
  unfolding drop_member
  drop_member-Preserves member n room h = RoomInv-same n room _ (ground arith) h

  -- The state that a command finds itself with after an edit.
  abbrev pub state_after : AppState V → Edited V → AppState V
  state_after app absent = app
  state_after app not_loaded = app
  state_after app (edited app') = app'

  edit_lock-AppInv :
      (n i : ℕ) (change : RoomState V → RoomState V) (app : AppState V)
      (o : Option (RwLock (RoomState V)))
      → get i app.rooms ≡ o
      → Preserves change
      → AppInv n app
      → AppInv (suc n) (state_after app (edit_lock i change app o))
  unfolding edit_lock
  edit_lock-AppInv n i change app none at keeps h = AppInv-mono n app h
  edit_lock-AppInv n i change app (some lock) at keeps h = elim (Bool-cases lock.poisoned) [
    | inl poisoned ↦ rw poisoned (AppInv-mono n app h)
    | inr fine ↦ elim (Bool-cases lock.content.loaded) [
      | inr unloaded ↦ rw (fine, unloaded) (AppInv-mono n app h)
      | inl loaded ↦
          let found : room_of i app ≡ ok lock.content = unfold room_of in ground arith in
          let inv : RoomInv n lock.content = rw found at (h.rooms i) in
          simp (fine, loaded)
            (AppInv-put_room n i (change lock.content) app
              (contains_of_room i lock.content app found) (keeps n lock.content inv) h)
    ]
  ]

  pub edit_room-AppInv :
      (n i : ℕ) (change : RoomState V → RoomState V) (app : AppState V)
      → Preserves change
      → AppInv n app
      → AppInv (suc n) (state_after app (edit_room i change app))
  unfolding edit_room
  edit_room-AppInv n i change app keeps h =
      edit_lock-AppInv n i change app (get i app.rooms) refl keeps h

abbrev pub IsFiled : {V : Type 0} → HashMap ℕ (HashMap String V) → Type 0
IsFiled out = Values IsMap out

-- The map that is read from a store has each bucket once, and each key of it.
module _ {V : Type 0} ⦃J : Json V⦄ where
  file_fragment-IsFiled :
      (f : Option (ℕ × String × V)) (out : HashMap ℕ (HashMap String V))
      → IsFiled out
      → IsFiled (file_fragment f out)
  unfolding file_fragment
  file_fragment-IsFiled none out h = h
  file_fragment-IsFiled (some (b, key, value)) out h =
      Values-insert IsMap b (insert key value (unwrap_or (get b out) [])) out
        (IsMap-insert key value (unwrap_or (get b out) []) (Values-get IsMap b out [] tt h)) h

  pub collect_fragments-IsFiled :
      (items : List (Result (Option String × Bytes) String))
      (out found : HashMap ℕ (HashMap String V))
      → IsFiled out
      → collect_fragments items out ≡ ok found
      → IsFiled found
  unfolding collect_fragments
  collect_fragments-IsFiled [] out found h e = let same : out ≡ found = cc in rw (← same) h
  collect_fragments-IsFiled (err failed ∷ items) out found h e = cc
  collect_fragments-IsFiled (ok (k, v) ∷ items) out found h e =
      collect_fragments-IsFiled items (file_fragment (fragment_of k v) out) found
        (file_fragment-IsFiled (fragment_of k v) out h) e
