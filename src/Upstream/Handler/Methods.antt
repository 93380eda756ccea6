-- ===== src/Upstream/Handler/Methods.antt =====
-- `impl CommandHandler for KernelCommandHandler`, server/crates/server/src/main.rs: the methods of
-- the service on the kernel.
use syncpond.Base.{ℕ, String, Option, List, Result}
use syncpond.Extern.Json.{Json, Bytes}
use syncpond.Extern.Rocks.{Rocks, Lru, Serde}
use syncpond.Protocol.{
  Commands, CommandResponse, new_room, new_bucket, delete_bucket, new_member, delete_member,
  write_fragment, read_fragment, load_room, unload_room,
}
use syncpond.State.{AppState}
use syncpond.State.Tokens.{JwtClaims}
use syncpond.Persistence.{BucketRecord, BucketRecords}
use syncpond.Kernel.{SyncpondKernel}
use syncpond.Kernel.Commands.{handle_command}
use syncpond.Kernel.Loading.{kernel_delete_room}
use syncpond.Upstream.Service.{Method, CommandHandler}
use syncpond.Upstream.Handler.{
  new_room_answer, new_bucket_answer, delete_bucket_answer, new_member_answer, delete_member_answer,
  read_fragment_answer, write_fragment_answer, load_room_answer, unload_room_answer,
  list_rooms_answer, list_members_answer, list_buckets_answer, issue_jwt,
}

module _ {V D C : Type 0} where
  -- A method that only reads the state.
  abbrev pub reading : {A : Type 0} → (AppState V → A) → Method (SyncpondKernel V D C) A
  reading answer k = (answer k.state, k)

  -- `encode` and `clock` are the encoder of tokens and the time of the call.
  unfoldable pub issue_from :
      (encode : JwtClaims → String → Option String) (clock room_id : ℕ) (sub : String)
      (buckets : List ℕ)
      → Method (SyncpondKernel V D C) (Result String String)
  unfolding issue_jwt
  issue_from encode clock room_id sub buckets k =
      let issued = issue_jwt encode clock room_id sub buckets k.state in
      (issued.1, record k { state = issued.0 })

module _ {V D C : Type 0} ⦃J : Json V⦄ ⦃R : Rocks D⦄ ⦃L : Lru BucketRecords C⦄ ⦃I : Serde (List ℕ)⦄
    ⦃M : Serde (List String)⦄ ⦃B : Serde BucketRecord⦄ (open_db : ℕ → Result D String)
    (from_utf8_lossy : Bytes → String) where
  -- `self.kernel.handle_command(…).await`, and what its response means.
  unfoldable pub commanded :
      {A : Type 0} → (CommandResponse → A) → Commands → Method (SyncpondKernel V D C) A
  unfolding handle_command
  commanded answer command k =
      let r = handle_command open_db from_utf8_lossy command k in (answer r.0, r.1)

  unfoldable pub kernel_handler :
      (encode : JwtClaims → String → Option String) (clock : ℕ)
      → CommandHandler (SyncpondKernel V D C)
  unfolding commanded issue_from kernel_delete_room new_room_answer new_bucket_answer
      delete_bucket_answer new_member_answer delete_member_answer read_fragment_answer
      write_fragment_answer load_room_answer unload_room_answer list_rooms_answer
      list_members_answer list_buckets_answer
  kernel_handler encode clock = record {
    new_room = λ name. commanded new_room_answer (new_room name);
    list_rooms = reading list_rooms_answer;
    delete_room = kernel_delete_room;
    issue_jwt = issue_from encode clock;
    new_bucket =
        λ room_id bucket_id label. commanded new_bucket_answer (new_bucket room_id bucket_id label);
    delete_bucket =
        λ room_id bucket_id. commanded delete_bucket_answer (delete_bucket room_id bucket_id);
    new_member = λ room_id member. commanded new_member_answer (new_member room_id member);
    delete_member = λ room_id member. commanded delete_member_answer (delete_member room_id member);
    list_members = λ room_id. reading (list_members_answer room_id);
    list_buckets = λ room_id. reading (list_buckets_answer room_id);
    read_fragment = λ room_id bucket_id key.
        commanded read_fragment_answer (read_fragment room_id bucket_id key);
    write_fragment = λ room_id bucket_id key content.
        commanded write_fragment_answer (write_fragment room_id bucket_id key content);
    load_room = λ room_id. commanded load_room_answer (load_room room_id);
    unload_room = λ room_id. commanded unload_room_answer (unload_room room_id);
  }
