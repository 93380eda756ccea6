-- ===== src/State/Reachable/Loading.antt =====
-- Creating, loading and unloading a room: the table is built anew, from versions 0.
use syncpond.Base.{
  ℕ, suc, String, ◌≡◌, refl, ◌∙◌, ap, Bool, true, false, Option, none, some, List, [], ◌∷◌, arith,
  unwrap_or,
}
use syncpond.Base.Eq.{nat_eq, string_eq}
use syncpond.Base.HashMap.{HashMap, get, get-insert}
use syncpond.Base.HashMap.Unique.{IsMap, Values, IsMap-insert, Values-insert, Values-get}
use syncpond.Base.HashSet.{HashSet}
use syncpond.State.{FragmentEntry, Fragments, RoomState}
use syncpond.State.Rooms.{
  BucketDef, new_room, fresh_entries, load_bucket, load_buckets, load_into, unloaded,
}
use syncpond.State.Fragments.Entries.{entry_at}
use syncpond.State.Fragments.Versions.{version_of, IsTable}
use syncpond.State.Reachable.RoomInvariant.{pending, RoomInv}

module _ {V : Type 0} where
  abbrev fresh_entry : Option V → Option (FragmentEntry V)
  fresh_entry none = none
  fresh_entry (some v) = some (record { value = v; key_version = 0 })

  pub get-fresh_entries :
      (k : String) (m : HashMap String V) → get k (fresh_entries m) ≡ fresh_entry (get k m)
  unfolding get
  get-fresh_entries k [] = refl
  get-fresh_entries k ((j, v) ∷ m) = ground (arith, get-fresh_entries k m)

  IsMap-fresh_entries : (m : HashMap String V) → IsMap m → IsMap (fresh_entries m)
  IsMap-fresh_entries [] h = tt
  IsMap-fresh_entries ((k, v) ∷ m) h =
      (get-fresh_entries k m ∙ ap fresh_entry h.0, IsMap-fresh_entries m h.1)

  -- A table with all versions 0, beside the counter and the buffer that the room had before.
  record IsFresh (old room : RoomState V) : Type 0 where
    table : IsTable room.buckets
    zero_version : (b : ℕ) (k : String) → version_of (entry_at b k room) ≡ 0
    count : room.room_counter ≡ old.room_counter
    buffer : pending room.tx_buffer ≡ pending old.tx_buffer

  load_bucket-IsFresh :
      (fragments : HashMap ℕ (HashMap String V)) (old room : RoomState V) (d : BucketDef)
      → Values IsMap fragments
      → IsFresh old room
      → IsFresh old (load_bucket fragments room d)
  unfolding load_bucket entry_at
  load_bucket-IsFresh fragments old room (id, label, flags) maps h =
      let loaded : HashMap String V = unwrap_or (get id fragments) [] in
      let entries : Fragments V = fresh_entries loaded in
      let one : IsMap entries =
        IsMap-fresh_entries loaded (Values-get IsMap id fragments [] tt maps) in
      record {
        table = (
          IsMap-insert id entries room.buckets h.table.0,
          Values-insert IsMap id entries room.buckets one h.table.1,
        );
        zero_version = λ b k. ground (
          arith,
          get-insert id b entries room.buckets,
          get-fresh_entries k loaded,
          h.zero_version b k,
        );
        count = h.count;
        buffer = h.buffer;
      }

  load_buckets-IsFresh :
      (fragments : HashMap ℕ (HashMap String V)) (old room : RoomState V) (defs : List BucketDef)
      → Values IsMap fragments
      → IsFresh old room
      → IsFresh old (load_buckets fragments room defs)
  unfolding load_buckets
  load_buckets-IsFresh fragments old room [] maps h = h
  load_buckets-IsFresh fragments old room (d ∷ defs) maps h =
      load_buckets-IsFresh fragments old (load_bucket fragments room d) defs maps
        (load_bucket-IsFresh fragments old room d maps h)

  cleared-IsFresh :
      (old : RoomState V)
      → IsFresh old (record old { buckets = []; bucket_labels = []; bucket_flags = [] })
  unfolding entry_at get
  cleared-IsFresh old = record {
    table = (tt, tt);
    zero_version = λ b k. refl;
    count = refl;
    buffer = refl;
  }

  IsFresh-RoomInv :
      (n : ℕ) (old room : RoomState V) → IsFresh old room → RoomInv n old → RoomInv (suc n) room
  IsFresh-RoomInv n old room f h = record {
    versioned = record { table = f.table; versions = λ b k. omega (arith, f.zero_version b k) };
    budget = omega (arith, f.count, f.buffer, h.budget);
  }

  IsVersioned-flags :
      (n : ℕ) (room : RoomState V) (members : HashSet String) (on : Bool)
      → RoomInv n room
      → RoomInv n (record room { members = members; loaded = on })
  unfolding entry_at
  IsVersioned-flags n room members on h = record {
    versioned = record { table = h.versioned.table; versions = h.versioned.versions };
    budget = h.budget;
  }

  pub load_into-RoomInv :
      (n : ℕ) (defs : List BucketDef) (members : HashSet String)
      (fragments : HashMap ℕ (HashMap String V)) (room : RoomState V)
      → Values IsMap fragments
      → RoomInv n room
      → RoomInv (suc n) (load_into defs members fragments room)
  unfolding load_into
  load_into-RoomInv n defs members fragments room maps h =
      IsVersioned-flags (suc n) _ members true (
        IsFresh-RoomInv n room _
          (load_buckets-IsFresh fragments room _ defs maps (cleared-IsFresh room)) h)

  pub unloaded-RoomInv :
      (n : ℕ) (room : RoomState V) → RoomInv n room → RoomInv (suc n) (unloaded room)
  unfolding unloaded
  unloaded-RoomInv n room h =
      IsVersioned-flags (suc n) _ [] false (IsFresh-RoomInv n room _ (cleared-IsFresh room) h)

  pub new_room-RoomInv : (n : ℕ) → RoomInv n (new_room {V = V})
  unfolding entry_at get
  new_room-RoomInv n = record {
    versioned = record { table = (tt, tt); versions = λ b k. omega arith };
    budget = omega arith;
  }
