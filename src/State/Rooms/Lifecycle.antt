-- ===== src/State/Rooms/Lifecycle.antt =====
-- What a room holds once it is loaded, and what it refuses once it is unloaded.
use syncpond.Base.{
  ℕ, String, ◌≡◌, refl, Bool, true, false, Option, none, some, List, [], ◌∷◌, arith, ok, err,
  if◌then◌else◌, unwrap_or, map,
}
use syncpond.Base.Eq.{nat_eq, string_eq, ◌==◌, ==_iff}
use syncpond.Base.HashMap.{HashMap, get, get-insert}
use syncpond.Base.HashSet.{HashSet, contains}
use syncpond.State.{FragmentEntry, RoomState, AppState, room_of, put_room}
use syncpond.State.Access.{room_of-put_room, room_of-put_room_self, update_room_at}
use syncpond.State.Errors.{room_not_loaded}
use syncpond.State.Members.{usable, remove_member, drop_member, list_members}
use syncpond.State.Rooms.{
  BucketDef, fresh_entries, load_bucket, load_buckets, load_into, load_room_data, unloaded,
  unload_room, is_room_loaded,
}
use syncpond.State.Fragments.{
  set_fragment, set_in_room, del_fragment, del_in_room, get_fragment, get_in_room,
}
use syncpond.State.Fragments.Entries.{entry_at, in_bucket}
use syncpond.Extern.Json.{Json}

-- The bucket has a record among those that are loaded.
abbrev pub is_declared : ℕ → List BucketDef → Bool
is_declared b defs = contains b (map (λ (d : BucketDef). d.0) defs)

module _ {V : Type 0} where
  -- A value from the disk, at version 0
  abbrev pub from_disk : Option V → Option (FragmentEntry V)
  from_disk none = none
  from_disk (some v) = some (record { value = v; key_version = 0 })

  get-fresh_entries :
      (k : String) (m : HashMap String V) → get k (fresh_entries m) ≡ from_disk (get k m)
  unfolding get
  get-fresh_entries k [] = refl
  get-fresh_entries k ((j, v) ∷ m) = ground (arith, get-fresh_entries k m)

  get-load_buckets :
      (fragments : HashMap ℕ (HashMap String V)) (defs : List BucketDef) (b : ℕ)
      (room : RoomState V)
      → get b (load_buckets fragments room defs).buckets ≡ (
          if is_declared b defs
          then some (fresh_entries (unwrap_or (get b fragments) []))
          else get b room.buckets)
  unfolding load_buckets load_bucket contains
  get-load_buckets fragments [] b room = refl
  get-load_buckets fragments ((id, label, flags) ∷ defs) b room =
      let room1 = load_bucket fragments room (id, label, flags) in
      ground (
        arith,
        get-load_buckets fragments defs b room1,
        ==_iff id b,
        get-insert id b (fresh_entries (unwrap_or (get id fragments) [])) room.buckets,
      )

  kept-load_buckets :
      (fragments : HashMap ℕ (HashMap String V)) (defs : List BucketDef) (room : RoomState V)
      → (load_buckets fragments room defs).room_counter ≡ room.room_counter
  unfolding load_buckets load_bucket
  kept-load_buckets fragments [] room = refl
  kept-load_buckets fragments (d ∷ defs) room =
      kept-load_buckets fragments defs (load_bucket fragments room d)

  pub entry_at-load_into :
      (defs : List BucketDef) (members : HashSet String) (fragments : HashMap ℕ (HashMap String V))
      (b : ℕ) (k : String) (room : RoomState V)
      → entry_at b k (load_into defs members fragments room)
        ≡ (if is_declared b defs then from_disk (get k (unwrap_or (get b fragments) [])) else none)
  unfolding load_into entry_at in_bucket get
  entry_at-load_into defs members fragments b k room =
      let cleared : RoomState V = record room {
        buckets = [];
        bucket_labels = [];
        bucket_flags = [];
      } in
      ground (
        arith,
        get-load_buckets fragments defs b cleared,
        get-fresh_entries k (unwrap_or (get b fragments) []),
      )

  -- A room that can be read can be loaded. It then is loaded, has the members it was given, its
  -- old counter, and of each bucket that has a record exactly the fragments it was given, at
  -- version 0; fragments of a bucket without a record are dropped. No other room changes.
  pub entry_at-load_room_data :
      (i : ℕ) (defs : List BucketDef) (members : HashSet String)
      (fragments : HashMap ℕ (HashMap String V)) (app : AppState V) (room : RoomState V)
      → room_of i app ≡ ok room
      → (app' : AppState V) × (room' : RoomState V) × (load_room_data i defs members fragments app
          ≡ ok app')
        × ((n : ℕ) → room_of n app' ≡ (if i == n then ok room' else room_of n app))
        × (room'.loaded ≡ true)
        × (room'.members ≡ members)
        × (room'.room_counter ≡ room.room_counter)
        × ((b : ℕ) (k : String)
            → entry_at b k room' ≡ (
                if is_declared b defs
                then from_disk (get k (unwrap_or (get b fragments) []))
                else none))
  unfolding load_room_data load_into
  entry_at-load_room_data i defs members fragments app room found =
      let room' = load_into defs members fragments room in
      let cleared : RoomState V = record room {
        buckets = [];
        bucket_labels = [];
        bucket_flags = [];
      } in
      (
        put_room i room' app,
        room',
        update_room_at i (λ r. ok (load_into defs members fragments r)) app room found,
        λ n. room_of-put_room i n room' app,
        refl,
        refl,
        kept-load_buckets fragments defs cleared,
        λ b k. entry_at-load_into defs members fragments b k room,
      )

module _ {V : Type 0} ⦃J : Json V⦄ where
  -- A room that can be read and is not locked for input and output can be unloaded, and then
  -- refuses with room_not_loaded to set, delete or read a fragment and to list or remove members.
  pub unload_room-refuses :
      (i : ℕ) (app : AppState V) (room : RoomState V)
      → room_of i app ≡ ok room
      → room.io_locked ≡ false
      → (app' : AppState V) × (unload_room i app ≡ ok app')
        × (is_room_loaded i app' ≡ false)
        × ((b : ℕ) (k : String) (v : V)
            → (set_fragment i b k v app' ≡ err room_not_loaded)
              × (del_fragment i b k app' ≡ err room_not_loaded)
              × (get_fragment i b k app' ≡ err room_not_loaded))
        × (list_members i app' ≡ err room_not_loaded)
        × ((member : String) → remove_member i member app' ≡ err room_not_loaded)
  unfolding unload_room unloaded set_fragment set_in_room del_fragment del_in_room get_fragment
      get_in_room list_members remove_member drop_member is_room_loaded usable
  unload_room-refuses i app room found free =
      let app' = put_room i (unloaded room) app in
      let at_i : room_of i app' ≡ ok (unloaded room) =
        room_of-put_room_self i (unloaded room) app in
      (
        app',
        update_room_at i (λ r. ok (unloaded r)) app room found,
        ground (arith, at_i),
        λ b k v. (
          ground (arith, update_room_at i (set_in_room b k v) app' (unloaded room) at_i),
          ground (arith, update_room_at i (del_in_room b k) app' (unloaded room) at_i),
          ground (arith, at_i),
        ),
        ground (arith, at_i),
        λ member. ground (arith, update_room_at i (drop_member member) app' (unloaded room) at_i),
      )
