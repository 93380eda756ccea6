-- ===== src/Tests/Durability.antt =====
-- The theorems on a room that is loaded again and on its bucket records, at the room of `Rooms`
-- with a store that has a bucket record.
use syncpond.Base.{
  ℕ, ◌≤◌, u64_max, List, String, ◌≡◌, refl, true, none, some, [], ◌∷◌, arith, ok, Bool-cases, inl,
  inr,
}
use syncpond.Base.Eq.{nat_eq, string_eq, ◌==◌, ==_iff}
use syncpond.Base.HashMap.{get}
use syncpond.Base.HashSet.{contains}
use syncpond.Base.Text.Decimal.{to_string}
use syncpond.Extern.Json.{Bytes}
use syncpond.Extern.Rocks.{IsReadable}
use syncpond.Protocol.{load_room_response, unload_room_response, fragment_read_response}
use syncpond.State.Rooms.Lifecycle.{is_declared}
use syncpond.Persistence.{BucketRecords, fragment_key}
use syncpond.Persistence.Buckets
use syncpond.Persistence.Buckets.{record_in, persist_bucket, remove_bucket}
use syncpond.Persistence.Rooms.{RoomPersistence, fragment_of}
use syncpond.Persistence.Scan.{IsAlone}
use syncpond.Persistence.Coherent.{IsCoherent}
use syncpond.Persistence.Coherent.Runs.{
  BucketCall, persisted, removed, do_calls, all_called, load_buckets-do_calls,
}
use syncpond.Kernel.{SyncpondKernel}
use syncpond.Kernel.Loading.{bucket_defs, handle_load_room, handle_unload_room}
use syncpond.Kernel.Writing.{parse_value, handle_read_fragment, handle_write_fragment}
use syncpond.Kernel.Durable.{reload-write_fragment}
use syncpond.Tests.Values.{Value, value_json}
use syncpond.Tests.Stores.{
  Store, Cache, test_rocks, test_lru, test_ids, test_texts, test_records, store-IsReadable,
}
use syncpond.Tests.Rooms.{app, room, room_found, room_usable}
use syncpond.Tests.Writes.{
  open_db, lossy, seven, seven_real, seven_exact, seven_saved, seven_parsed,
}

-- The record of bucket 0, without a label.
abbrev record_bytes : Bytes
record_bytes = 0 ∷ 0 ∷ 0 ∷ []

abbrev pub before : Store
before = ("bucket:0", record_bytes) ∷ []

abbrev pub stocked : SyncpondKernel Value Store Cache
stocked = record {
  state = app;
  persistence = record { dbs = (1, before) ∷ []; bucket_cache = [] };
  notifications = [];
}

abbrev fragment : String
fragment = "0:c"

abbrev pub written : Store
written = (fragment, seven) ∷ before

pub written_put : test_rocks.db_put (fragment_key (to_string 0) "c") seven before ≡ (ok tt, written)
unfolding test_rocks fragment_key to_string
written_put = refl

pub written-IsReadable : IsReadable (test_rocks.iterator written)
unfolding test_rocks
written-IsReadable = tt

pub before_found : get 1 stocked.persistence.dbs ≡ some before
unfolding get
before_found = refl

-- A bucket record reads as no fragment.
record_is_none : (w : Bytes) → fragment_of {V = Value} (some "bucket:0") w ≡ none
unfolding fragment_of
record_is_none w = refl

pub fragment-IsAlone : IsAlone Value 0 "c" (fragment_key (to_string 0) "c") before
unfolding test_rocks get
fragment-IsAlone j w u at_j read = elim (Bool-cases ("bucket:0" == j)) [
  | inl same ↦
      let entry : fragment_of {V = Value} (some "bucket:0") w ≡ some (0, "c", u) =
        rw ((==_iff "bucket:0" j).0 same) read in
      cc (record_is_none w)
  | inr other ↦ ground arith
]

abbrev pub records : BucketRecords
records = (0, record { id = 0; label = none; flags = 0 }) ∷ []

pub records_loaded :
    (Buckets.load_buckets {C = Cache} 1 (record { db = written; bucket_cache = [] })).0 ≡ ok records
unfolding Buckets.load_buckets test_rocks test_lru test_ids test_records
records_loaded = refl

pub declared : is_declared 0 (bucket_defs records) ≡ true
unfolding bucket_defs contains
declared = refl

reload-write_fragment_example :
    let wrote = (handle_write_fragment open_db lossy 1 0 "c" seven stocked).1 in
    let left = handle_unload_room 1 wrote in
    let back = handle_load_room open_db 1 left.1 in
    (left.0 ≡ unload_room_response (ok tt))
    × (back.0 ≡ load_room_response (ok tt))
    × ((handle_read_fragment 1 0 "c" back.1).0 ≡ fragment_read_response (some seven))
reload-write_fragment_example =
    reload-write_fragment open_db lossy 1 0 "c" seven seven (parse_value lossy seven) records room
      before written stocked (omega arith) room_found room_usable (inl seven_parsed) seven_real
      seven_exact seven_saved before_found written_put written-IsReadable fragment-IsAlone
      records_loaded declared

abbrev changes : List BucketCall
changes = persisted 4 none 1 ∷ removed 0 ∷ persisted 4 (some "tips") 2 ∷ []

abbrev uncached : RoomPersistence Store Cache
uncached = record { db = written; bucket_cache = [] }

abbrev changed : RoomPersistence Store Cache
changed = (do_calls 1 (persisted 7 none 0 ∷ changes) uncached).1

changed_ok : do_calls 1 (persisted 7 none 0 ∷ changes) uncached ≡ (ok tt, changed)
unfolding persist_bucket remove_bucket test_rocks test_lru test_ids test_records
changed_ok = refl

uncached-IsCoherent : IsCoherent 1 uncached
unfolding test_lru get
uncached-IsCoherent recs there = cc

load_buckets-do_calls_example :
    (recs : BucketRecords) × ((Buckets.load_buckets 1 changed).0 ≡ ok recs)
    × ((j : ℕ)
        → j ≤ u64_max
        → get j recs ≡ all_called (persisted 7 none 0 ∷ changes) j (record_in written j))
load_buckets-do_calls_example =
    load_buckets-do_calls 1 (persisted 7 none 0) changes uncached changed store-IsReadable
      (omega arith, (omega arith, (omega arith, (omega arith, tt)))) uncached-IsCoherent changed_ok
