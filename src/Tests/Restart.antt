-- ===== src/Tests/Restart.antt =====
-- The theorem on a restart, with the store of `Durability`.
use syncpond.Base.{ℕ, String, ◌≡◌, refl, inl, Option, some, List, [], ◌∷◌, arith, Result, ok}
use syncpond.Protocol.{load_room_response, fragment_read_response}
use syncpond.Base.Eq.{nat_eq}
use syncpond.Base.HashMap.{get}
use syncpond.Persistence.Directory.Names.{IsListed}
use syncpond.Base.Text.Decimal.{parse_u64}
use syncpond.Kernel.Loading.{handle_load_room}
use syncpond.Kernel.Writing.{parse_value, handle_read_fragment, handle_write_fragment}
use syncpond.Kernel.Persisted.{write_fragment-persisted}
use syncpond.Startup.{Server, start}
use syncpond.Startup.Restored.{restart-write_fragment}
use syncpond.Tests.Values.{Value, value_json}
use syncpond.Tests.Stores.{Store, Cache, test_rocks, test_lru, test_ids, test_texts, test_records}
use syncpond.Tests.Writes.{
  open_db, lossy, seven, seven_real, seven_exact, seven_saved, seven_parsed, app_loaded,
}
use syncpond.Tests.Starting.{config, create_dir_all, parse_addr, ok_or_blank}
use syncpond.Tests.Durability.{
  before, stocked, written, records, written_put, written-IsReadable, before_found,
  fragment-IsAlone, records_loaded, declared,
}

-- The store as it was left
abbrev open_disk : ℕ → Result Store String
open_disk room_id = ok written

abbrev read_disk : Result (List (Option String)) String
read_disk = ok (some "room_1" ∷ [])

abbrev start_again : Result (Server Value Store Cache String) String
start_again = start open_disk create_dir_all read_disk parse_addr [] config

abbrev server : Server Value Store Cache String
server = ok_or_blank start_again

started_again : start_again ≡ ok server
unfolding start
started_again = refl

left_on_disk :
    (left : Store)
    → get 1 (handle_write_fragment open_db lossy 1 0 "c" seven stocked).1.persistence.dbs
      ≡ some left
    → open_disk 1 ≡ ok left
left_on_disk left h =
    let wrote =
      write_fragment-persisted open_db lossy 1 0 "c" seven seven stocked before written
        (omega arith) app_loaded seven_real seven_exact seven_saved before_found written_put in
    let same = wrote.0 in ground arith

room-IsListed : IsListed 1 read_disk
unfolding parse_u64
room-IsListed = (some "room_1" ∷ [], "1", refl, refl, inl refl)

restart-write_fragment_example :
    let back = handle_load_room open_disk 1 server.kernel in
    (back.0 ≡ load_room_response (ok tt))
    × ((handle_read_fragment 1 0 "c" back.1).0 ≡ fragment_read_response (some seven))
restart-write_fragment_example =
    restart-write_fragment open_disk create_dir_all read_disk parse_addr [] config server
      started_again open_db lossy 1 0 "c" seven seven (parse_value lossy seven) records before
      written stocked (omega arith) app_loaded (inl seven_parsed) seven_real seven_exact seven_saved
      before_found written_put room-IsListed left_on_disk written-IsReadable fragment-IsAlone
      records_loaded declared
