-- ===== src/Client.antt =====
-- lib/rust/src/lib.rs: the client for application servers, over the generated client `inner` of
-- the service, which has a call for each of its methods. `S` is the state behind the service; the
-- network in between is `inner`'s.
pub mod Refused
use syncpond.Base.{ℕ, String, Bool, Option, none, some, List, Result, ok, err, if◌then◌else◌}
use syncpond.Extern.Json.{Bytes}
use syncpond.Extern.Tonic.{Tonic}
use syncpond.Upstream.{Status, ReadFragmentResponse}
use syncpond.Upstream.Service.{Rpc, CommandHandler, CommandService, serve}

pub record SyncpondClient (S : Type 0) : Type 0 where
  pub inner : CommandService S

-- `if inner.found { Ok(Some(inner.data)) } else { Ok(None) }`
unfoldable pub found_content : ReadFragmentResponse → Option Bytes
found_content inner = if inner.found then some inner.content else none

-- `SyncpondClient::connect`, and the server with its key behind it: the client of
-- `CommandServiceClient::connect` adds no metadata to its calls.
unfoldable pub connect :
    {S : Type 0} ⦃T : Tonic Status⦄
    → (api_key : Option String) → CommandHandler S
    → SyncpondClient S
unfolding serve
connect api_key handler = record { inner = serve api_key none handler }

module _ {S : Type 0} where
  -- `call.await?`, and what the method takes of the response.
  unfoldable pub received : {A B : Type 0} → (A → B) → Rpc S A → Rpc S B
  received take call s =
      let r = call s in (elim r.0 [ ok resp ↦ ok (take resp) | err status ↦ err status ], r.1)

  module _ (client : SyncpondClient S) where
    unfoldable pub new_room : (name : String) → Rpc S ℕ
    unfolding received
    new_room name = received (λ room_id. room_id) (client.inner.new_room name)

    unfoldable pub list_rooms : Rpc S (List String)
    unfolding received
    list_rooms = received (λ rooms. rooms) client.inner.list_rooms

    unfoldable pub delete_room : (room_id : ℕ) → Rpc S (Unit {0})
    unfolding received
    delete_room room_id = received (λ _. tt) (client.inner.delete_room room_id)

    unfoldable pub issue_jwt : (room_id : ℕ) (sub : String) (buckets : List ℕ) → Rpc S String
    unfolding received
    issue_jwt room_id sub buckets =
        received (λ jwt. jwt) (client.inner.issue_jwt room_id sub buckets)

    unfoldable pub new_bucket : (room_id bucket_id : ℕ) (label : String) → Rpc S (Unit {0})
    unfolding received
    new_bucket room_id bucket_id label =
        received (λ _. tt) (client.inner.new_bucket room_id bucket_id label)

    unfoldable pub delete_bucket : (room_id bucket_id : ℕ) → Rpc S (Unit {0})
    unfolding received
    delete_bucket room_id bucket_id =
        received (λ _. tt) (client.inner.delete_bucket room_id bucket_id)

    unfoldable pub list_buckets : (room_id : ℕ) → Rpc S (List String)
    unfolding received
    list_buckets room_id = received (λ buckets. buckets) (client.inner.list_buckets room_id)

    unfoldable pub new_member : (room_id : ℕ) (member : String) → Rpc S (Unit {0})
    unfolding received
    new_member room_id member = received (λ _. tt) (client.inner.new_member room_id member)

    unfoldable pub delete_member : (room_id : ℕ) (member : String) → Rpc S (Unit {0})
    unfolding received
    delete_member room_id member = received (λ _. tt) (client.inner.delete_member room_id member)

    unfoldable pub list_members : (room_id : ℕ) → Rpc S (List String)
    unfolding received
    list_members room_id = received (λ members. members) (client.inner.list_members room_id)

    unfoldable pub read_fragment : (room_id bucket_id : ℕ) (key : String) → Rpc S (Option Bytes)
    unfolding received found_content
    read_fragment room_id bucket_id key =
        received found_content (client.inner.read_fragment room_id bucket_id key)

    unfoldable pub write_fragment :
        (room_id bucket_id : ℕ) (key : String) (content : Bytes) → Rpc S (Unit {0})
    unfolding received
    write_fragment room_id bucket_id key content =
        received (λ _. tt) (client.inner.write_fragment room_id bucket_id key content)

    unfoldable pub load_room : (room_id : ℕ) → Rpc S (Unit {0})
    unfolding received
    load_room room_id = received (λ _. tt) (client.inner.load_room room_id)

    unfoldable pub unload_room : (room_id : ℕ) → Rpc S (Unit {0})
    unfolding received
    unload_room room_id = received (λ _. tt) (client.inner.unload_room room_id)
