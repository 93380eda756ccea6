-- ===== src/Tests/Deliveries.antt =====
-- The theorems on the delivery of a write and on a stray load, at the kernel of `Writes`.
use syncpond.Base.{
  ℕ, suc, false, length, ◌<◌, ◌≡◌, refl, true, List, [], ◌++◌, arith, ok, err, wrapping_add, inl,
}
use syncpond.Base.Eq.{nat_eq}
use syncpond.Base.HashMap.{contains_key}
use syncpond.Extern.Json.{Bytes}
use syncpond.State.{RoomState, room_of}
use syncpond.State.Errors.{room_not_found}
use syncpond.State.Reachable.{run}
use syncpond.State.Config.{new, set_jwt_audience, set_jwt_issuer, set_jwt_key}
use syncpond.State.Members.{add_member}
use syncpond.State.Labels.{set_room_label}
use syncpond.State.Fragments.{set_fragment, get_fragment, write_entry}
use syncpond.State.Rooms.{create_room, is_room_loaded}
use syncpond.Hub.{remove_client}
use syncpond.Hub.HubInvariant.{remove_client-HubInv}
use syncpond.Hub.Broadcast.{IsDelivered}
use syncpond.Hub.Forwarding.{Answers, Turns, KeepsInv, run_forwarder}
use syncpond.Kernel.{SyncpondKernel, channel_capacity, notify}
use syncpond.Kernel.Writing.{
  Others, nobody, parse_value, handle_write_fragment, handle_write_fragment_among, write_value,
  set_value, persist_value, announce_value,
}
use syncpond.Kernel.Loading.{handle_load_room}
use syncpond.Kernel.Stray.{Fails, load_room-stray}
use syncpond.Kernel.Delivered.{announced, at_set, at_read, at_send, write_fragment-IsDelivered}
use syncpond.Tests.Values.{Value, value_json}
use syncpond.Tests.Frames.{test_wire}
use syncpond.Tests.Stores.{Store, Cache, test_rocks, test_lru, test_ids, test_texts, test_records}
use syncpond.Tests.Rooms.{room, room_found, room_usable}
use syncpond.Tests.Clients.{hub, hub_sound, try_send}
use syncpond.Tests.Writes.{open_db, lossy, kernel, seven, seven_real, seven_parsed, room_loaded}

abbrev answers : Answers ℕ
answers n = try_send

-- The connection 9 leaves the hub before each message.
abbrev between : Turns ℕ
between n hub = remove_client 9 hub

between-KeepsInv : KeepsInv between
between-KeepsInv n hub h = remove_client-HubInv 9 hub h

-- Another write to the room comes in before the version is read.
abbrev others : Others Value Store Cache
others = record nobody {
  before_read = λ k. (handle_write_fragment open_db lossy 1 0 "d" seven k).1;
}

abbrev writing : SyncpondKernel Value Store Cache
writing = at_send open_db others 1 0 "c" (parse_value lossy seven) kernel

-- The room after both writes.
abbrev now : RoomState Value
now = let v = parse_value lossy seven in write_entry 0 "d" v (write_entry 0 "c" v room)

now_found :
    room_of 1 (at_read open_db others 1 0 "c" (parse_value lossy seven) kernel).state ≡ ok now
unfolding handle_write_fragment handle_write_fragment_among write_value set_value persist_value
    announce_value nobody room_of run new set_jwt_audience set_jwt_issuer set_jwt_key add_member
    set_room_label set_fragment create_room write_entry is_room_loaded
now_found = refl

now_free : now.io_locked ≡ false
unfolding write_entry
now_free = refl

space : length writing.notifications < channel_capacity
unfolding handle_write_fragment handle_write_fragment_among write_value set_value persist_value
    announce_value nobody room_of run new set_jwt_audience set_jwt_issuer set_jwt_key add_member
    set_room_label set_fragment create_room write_entry is_room_loaded notify
space = ground arith

write_fragment-IsDelivered_example :
    let set = (at_set open_db others 1 0 "c" (parse_value lossy seven) kernel).state in
    let k' = (handle_write_fragment_among open_db lossy others 1 0 "c" seven kernel).1 in
    let before =
      run_forwarder (λ n. answers (suc n)) (λ n. between (suc n)) writing.notifications hub in
    let done = run_forwarder answers between k'.notifications hub in
    (get_fragment 1 0 "c" set ≡ ok (parse_value lossy seven, wrapping_add room.room_counter 1))
    × (room_of 1 set ≡ ok now → now.room_counter ≡ wrapping_add room.room_counter 1)
    × ((sent : List (ℕ × Bytes)) × (done.0 ≡ before.0 ++ sent)
        × IsDelivered {V = Value}
            (answers 0)
            (announced 0 "c" (parse_value lossy seven) now.room_counter)
            (between 0 before.1)
            sent
            done.1)
unfolding nobody run
write_fragment-IsDelivered_example =
    write_fragment-IsDelivered open_db others lossy answers between 1 0 "c" seven
      (parse_value lossy seven) room now kernel hub room_loaded (inl seven_parsed) seven_real
      room_found room_usable refl now_found now_free space between-KeepsInv hub_sound

absent : room_of 9 kernel.state ≡ err room_not_found
unfolding room_of run new set_jwt_audience set_jwt_issuer set_jwt_key add_member set_room_label
    set_fragment create_room
absent = refl

load_room-stray_example :
    let r = handle_load_room open_db 9 kernel in
    Fails r.0 × (r.1.state ≡ kernel.state) × (contains_key 9 r.1.persistence.dbs ≡ true)
load_room-stray_example = load_room-stray open_db 9 [] kernel absent refl
