-- ===== src/Tests/Remote.antt =====
-- The theorems on the client of the service, at the kernel of `Writes`.
use syncpond.Base.{String, ◌≡◌, refl, Option, some, [], Result, ok, err, true, inl}
use syncpond.Extern.Tonic.{Tonic}
use syncpond.State.Tokens.{JwtClaims}
use syncpond.Kernel.{SyncpondKernel}
use syncpond.Kernel.Writing.{parse_value}
use syncpond.Upstream.{Status}
use syncpond.Upstream.Service.{CommandService}
use syncpond.Upstream.Handler.Methods.{kernel_handler}
use syncpond.Client
use syncpond.Client.{SyncpondClient, connect}
use syncpond.Client.Refused.{IsRefused, connect-IsRefused}
use syncpond.Upstream.Stored.{keyed_calls, serve-read-write_fragment}
use syncpond.Tests.Values.{Value, value_json}
use syncpond.Tests.Stores.{Store, Cache, test_rocks, test_lru, test_ids, test_texts, test_records}
use syncpond.Tests.Rooms.{room, room_found, room_usable}
use syncpond.Tests.Writes.{open_db, lossy, kernel, seven, seven_real, seven_saved, seven_parsed}

intercept_call :
    {S A : Type 0} → Result (Unit {0}) Status → (S → Result A Status × S) → S → Result A Status × S
intercept_call (ok _) call s = call s
intercept_call (err status) call s = (err status, s)

instance abbrev test_tonic : Tonic Status
unfolding intercept_call
test_tonic = record {
  with_interceptor = intercept_call;
  passed = λ call s. refl;
  refused = λ status call s. refl;
}

abbrev encode : JwtClaims → String → Option String
encode claims key = some key

abbrev keyless_client : SyncpondClient (SyncpondKernel Value Store Cache)
keyless_client = connect (some "secret") (kernel_handler open_db lossy encode 0)

connect-IsRefused_example :
    IsRefused (Client.new_room keyless_client "a")
    × IsRefused (Client.list_rooms keyless_client)
    × IsRefused (Client.delete_room keyless_client 1)
    × IsRefused (Client.issue_jwt keyless_client 1 "a" [])
    × IsRefused (Client.new_bucket keyless_client 1 0 "a")
    × IsRefused (Client.delete_bucket keyless_client 1 0)
    × IsRefused (Client.list_buckets keyless_client 1)
    × IsRefused (Client.new_member keyless_client 1 "a")
    × IsRefused (Client.delete_member keyless_client 1 "a")
    × IsRefused (Client.list_members keyless_client 1)
    × IsRefused (Client.read_fragment keyless_client 1 0 "a")
    × IsRefused (Client.write_fragment keyless_client 1 0 "a" seven)
    × IsRefused (Client.load_room keyless_client 1)
    × IsRefused (Client.unload_room keyless_client 1)
connect-IsRefused_example =
    connect-IsRefused (some "secret") (kernel_handler open_db lossy encode 0) 1 0 "a" seven []

abbrev keyed : CommandService (SyncpondKernel Value Store Cache)
keyed = keyed_calls open_db lossy encode 0 "secret"

serve-read-write_fragment_example :
    let wrote = keyed.write_fragment 1 0 "c" seven kernel in
    (wrote.0 ≡ ok tt)
    × ((keyed.read_fragment 1 0 "c" wrote.1).0 ≡ ok (record { content = seven; found = true }))
serve-read-write_fragment_example =
    serve-read-write_fragment open_db lossy encode 0 "secret" 1 0 "c" seven seven
      (parse_value lossy seven) room kernel room_found room_usable refl (inl seven_parsed)
      seven_real seven_saved
