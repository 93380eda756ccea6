-- ===== src/Kernel/Commands.antt =====
-- `handle_command`, server/crates/sp-kernel/src/kernel.rs.
use syncpond.Base.{ℕ, String, List, Result}
use syncpond.Extern.Json.{Json, Bytes}
use syncpond.Extern.Rocks.{Rocks, Lru, Serde}
use syncpond.Protocol.{
  Commands, new_room, new_bucket, delete_bucket, new_member, delete_member, write_fragment,
  read_fragment, load_room, unload_room, CommandResponse,
}
use syncpond.Persistence.{BucketRecord, BucketRecords}
use syncpond.Kernel.{SyncpondKernel}
use syncpond.Kernel.Buckets.{
  handle_new_bucket, handle_delete_bucket, handle_new_member, handle_delete_member,
}
use syncpond.Kernel.Writing.{handle_write_fragment, handle_read_fragment}
use syncpond.Kernel.Loading.{handle_new_room, handle_load_room, handle_unload_room}

module _ {V D C : Type 0} ⦃J : Json V⦄ ⦃R : Rocks D⦄ ⦃L : Lru BucketRecords C⦄ ⦃I : Serde (List ℕ)⦄
    ⦃M : Serde (List String)⦄ ⦃B : Serde BucketRecord⦄ (open_db : ℕ → Result D String)
    (from_utf8_lossy : Bytes → String) where
  unfoldable pub handle_command :
      Commands → SyncpondKernel V D C → CommandResponse × SyncpondKernel V D C
  unfolding handle_new_room handle_new_bucket handle_delete_bucket handle_new_member
      handle_delete_member handle_write_fragment handle_read_fragment handle_load_room
      handle_unload_room
  handle_command (new_room name) = handle_new_room open_db name
  handle_command (new_bucket room_id bucket_id label) =
      handle_new_bucket open_db room_id bucket_id label
  handle_command (delete_bucket room_id bucket_id) = handle_delete_bucket open_db room_id bucket_id
  handle_command (new_member room_id member) = handle_new_member open_db room_id member
  handle_command (delete_member room_id member) = handle_delete_member open_db room_id member
  handle_command (write_fragment room_id bucket_id key bytes) =
      handle_write_fragment open_db from_utf8_lossy room_id bucket_id key bytes
  handle_command (read_fragment room_id bucket_id key) = handle_read_fragment room_id bucket_id key
  handle_command (load_room room_id) = handle_load_room open_db room_id
  handle_command (unload_room room_id) = handle_unload_room room_id
