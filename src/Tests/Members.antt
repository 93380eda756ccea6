-- ===== src/Tests/Members.antt =====
-- The theorems on the members in the store, at an empty store.
use syncpond.Base.{String, ◌≡◌, refl, true, false, [], ok, if◌then◌else◌}
use syncpond.Base.Eq.{string_eq, ◌==◌}
use syncpond.Base.HashSet.{HashSet, contains}
use syncpond.Base.Text.{trim, is_empty_str}
use syncpond.Persistence.Rooms.{RoomPersistence, load_members, persist_member, remove_member}
use syncpond.Persistence.Members.{load-persist_member, load-remove_member}
use syncpond.Tests.Stores.{Store, Cache, test_rocks, test_texts}

abbrev empty_store : RoomPersistence Store Cache
empty_store = record { db = []; bucket_cache = [] }

nobody : load_members 1 empty_store ≡ (ok [], empty_store)
unfolding load_members test_rocks
nobody = refl

not_blank : is_empty_str (trim " ann ") ≡ false
unfolding is_empty_str trim
not_blank = refl

abbrev with_ann : RoomPersistence Store Cache
with_ann = (persist_member 1 " ann " empty_store).1

persisted : persist_member 1 " ann " empty_store ≡ (ok tt, with_ann)
unfolding persist_member test_rocks test_texts
persisted = refl

load-persist_member_example :
    (new : HashSet String) × (load_members 1 with_ann ≡ (ok new, with_ann))
    × ((j : String) → contains j new ≡ (if trim " ann " == j then true else contains j []))
load-persist_member_example =
    load-persist_member 1 " ann " [] empty_store with_ann not_blank nobody persisted

abbrev without_bob : RoomPersistence Store Cache
without_bob = (remove_member 1 "bob" empty_store).1

removed : remove_member 1 "bob" empty_store ≡ (ok tt, without_bob)
unfolding remove_member test_rocks test_texts
removed = refl

load-remove_member_example :
    (new : HashSet String) × (load_members 1 without_bob ≡ (ok new, without_bob))
    × ((j : String) → contains j new ≡ (if "bob" == j then false else contains j []))
load-remove_member_example = load-remove_member 1 "bob" [] empty_store without_bob nobody removed
