-- ===== src/Kernel/Reachable/Loads.antt =====
-- Loading a room keeps the invariant of the kernel: the maps that are read from the store have
-- each key once.
use syncpond.Base.{
  ℕ, suc, ◌<◌, String, Option, none, some, List, [], Result, ok, err, Result-cases, inl, inr,
  u64_mod,
}
use syncpond.Base.HashSet.{HashSet}
use syncpond.Base.HashMap.{HashMap}
use syncpond.Extern.Json.{Json}
use syncpond.Extern.Rocks.{Rocks, Lru, Serde}
use syncpond.Protocol.{load_room_response}
use syncpond.State.Rooms.{BucketDef, load_room_data}
use syncpond.State.Reachable.{Call}
use syncpond.State.Reachable
use syncpond.Persistence.{BucketRecord, BucketRecords, open_room_db, get_room_db}
use syncpond.Persistence.Buckets.{load_buckets}
use syncpond.Persistence.Rooms.{
  RoomPersistence, load_members, collect_fragments, load_all_fragments,
}
use syncpond.Kernel.{SyncpondKernel}
use syncpond.Kernel.Loading.{handle_load_room, load_found, load_from, load_opened, read_room}
use syncpond.Kernel.Reachable.Invariant.{
  KernelInv, KernelInv-mono, settle-KernelInv, called-KernelInv,
}
use syncpond.Kernel.Reachable.Edits.{IsFiled, collect_fragments-IsFiled}

-- What was read of a room, as maps.
abbrev IsRead :
    {V : Type 0}
    → Result (List BucketDef × HashSet String × HashMap ℕ (HashMap String V)) String
    → Type 0
IsRead (ok (defs, members, fragments)) = IsFiled fragments
IsRead (err e) = Unit {0}

module _ (V : Type 0) {D C : Type 0} ⦃J : Json V⦄ ⦃R : Rocks D⦄ ⦃L : Lru BucketRecords C⦄
    ⦃I : Serde (List ℕ)⦄ ⦃M : Serde (List String)⦄ ⦃B : Serde BucketRecord⦄
    (open_db : ℕ → Result D String) where
  read_room-IsRead : (i : ℕ) (s : RoomPersistence D C) → IsRead {V = V} ((read_room open_db i s).0)
  unfolding read_room load_all_fragments
  read_room-IsRead i s =
      let filled = (load_members i ((load_buckets i s).1)).1 in
      elim (Result-cases (collect_fragments {V = V} (R.iterator filled.db) [])) [
        | inl (found, done) ↦
            rw (done, IsRead) (collect_fragments-IsFiled (R.iterator filled.db) [] found tt done)
        | inr (e, failed) ↦ rw (failed, IsRead) tt
      ]

module _ {V D C : Type 0} ⦃J : Json V⦄ ⦃R : Rocks D⦄ ⦃L : Lru BucketRecords C⦄ ⦃I : Serde (List ℕ)⦄
    ⦃M : Serde (List String)⦄ ⦃B : Serde BucketRecord⦄ (open_db : ℕ → Result D String) where
  load_found-KernelInv :
      (n i : ℕ) (k : SyncpondKernel V D C)
      (r : Result (List BucketDef × HashSet String × HashMap ℕ (HashMap String V)) String)
      → suc (suc n) < u64_mod
      → IsRead r
      → KernelInv n k
      → KernelInv (suc n) ((load_found open_db i k r).1)
  unfolding load_found Reachable.step
  load_found-KernelInv n i k (err e) bound maps inv = KernelInv-mono n k inv
  load_found-KernelInv n i k (ok (defs, members, fragments)) bound maps inv =
      settle-KernelInv n load_room_response k (load_room_data i defs members fragments k.state)
        (called-KernelInv n (Call.loads_room i defs members fragments maps) k bound inv) inv

  load_from-KernelInv :
      (n i : ℕ) (k : SyncpondKernel V D C) (o : Option D)
      → suc (suc n) < u64_mod
      → KernelInv n k
      → KernelInv (suc n) ((load_from open_db i k o).1)
  unfolding load_from
  load_from-KernelInv n i k none bound inv =
      load_found-KernelInv n i k (ok ([], [], [])) bound tt inv
  load_from-KernelInv n i k (some db) bound inv =
      let start : RoomPersistence D C = record {
        db = db;
        bucket_cache = k.persistence.bucket_cache;
      } in
      load_found-KernelInv n i _ ((read_room open_db i start).0) bound
        (read_room-IsRead V open_db i start) (record { sound = inv.sound; room = inv.room })

  load_opened-KernelInv :
      (n i : ℕ) (k : SyncpondKernel V D C) (opened : Result (Unit {0}) String)
      → suc (suc n) < u64_mod
      → KernelInv n k
      → KernelInv (suc n) ((load_opened open_db i k opened).1)
  unfolding load_opened
  load_opened-KernelInv n i k (err e) bound inv = KernelInv-mono n k inv
  load_opened-KernelInv n i k (ok _) bound inv =
      load_from-KernelInv n i k (get_room_db i k.persistence) bound inv

  pub load_room-KernelInv :
      (n i : ℕ) (k : SyncpondKernel V D C)
      → suc (suc n) < u64_mod
      → KernelInv n k
      → KernelInv (suc n) ((handle_load_room open_db i k).1)
  unfolding handle_load_room
  load_room-KernelInv n i k bound inv =
      let opened = open_room_db open_db i k.persistence in
      load_opened-KernelInv n i (record k { persistence = opened.1 }) opened.0 bound
        (record { sound = inv.sound; room = inv.room })
