-- ===== src/Kernel/Buckets.antt =====
-- The commands on the buckets and the members of a room,
-- server/crates/sp-kernel/src/kernel.rs. A state without the room is left alone, and the answer
-- is the same as of a success.
use syncpond.Base.{ℕ, String, none, some, List, [], Result, if◌then◌else◌}
use syncpond.Base.Eq.{nat_eq, string_eq}
use syncpond.Base.HashMap.{HashMap, insert, remove, contains_key}
use syncpond.Base.HashSet
use syncpond.Base.Text.{trim, is_empty_str}
use syncpond.Extern.Rocks.{Rocks, Lru, Serde}
use syncpond.Protocol.{
  CommandResponse, new_bucket_response, delete_bucket_response, new_member_response,
  delete_member_response,
}
use syncpond.State.{RoomState}
use syncpond.Persistence.{BucketRecord, BucketRecords}
use syncpond.Persistence.Rooms
use syncpond.Persistence.Rooms.{persist_member}
use syncpond.Persistence.Buckets.{persist_bucket, remove_bucket}
use syncpond.Kernel.{SyncpondKernel, edit_room, finish_edit}

-- `entry(k).or_insert(v)`
unfoldable pub or_insert : {A : Type 0} → ℕ → A → HashMap ℕ A → HashMap ℕ A
unfolding contains_key insert
or_insert k v m = if contains_key k m then m else insert k v m

module _ {V : Type 0} where
  unfoldable pub make_bucket : (bucket_id : ℕ) (label_trimmed : String) → RoomState V → RoomState V
  unfolding or_insert is_empty_str insert
  make_bucket bucket_id label_trimmed room = record room {
    buckets = or_insert bucket_id [] room.buckets;
    bucket_flags = or_insert bucket_id 0 room.bucket_flags;
    bucket_labels =
        if is_empty_str label_trimmed
        then room.bucket_labels
        else insert bucket_id label_trimmed room.bucket_labels;
  }

  unfoldable pub drop_bucket : (bucket_id : ℕ) → RoomState V → RoomState V
  unfolding remove
  drop_bucket bucket_id room = record room {
    buckets = remove bucket_id room.buckets;
    bucket_labels = remove bucket_id room.bucket_labels;
    bucket_flags = remove bucket_id room.bucket_flags;
  }

  unfoldable pub make_member : (member_trimmed : String) → RoomState V → RoomState V
  unfolding is_empty_str HashSet.insert
  make_member member_trimmed room =
      if is_empty_str member_trimmed
      then room
      else record room { members = HashSet.insert member_trimmed room.members }

  unfoldable pub drop_member : (member_trimmed : String) → RoomState V → RoomState V
  unfolding HashSet.remove
  drop_member member_trimmed room = record room {
    members = HashSet.remove member_trimmed room.members;
  }

module _ {V D C : Type 0} ⦃R : Rocks D⦄ (open_db : ℕ → Result D String) where
  module _ ⦃L : Lru BucketRecords C⦄ ⦃I : Serde (List ℕ)⦄ ⦃B : Serde BucketRecord⦄ where
    unfoldable pub handle_new_bucket :
        (room_id bucket_id : ℕ) (label : String)
        → SyncpondKernel V D C
        → CommandResponse × SyncpondKernel V D C
    unfolding trim is_empty_str edit_room make_bucket finish_edit persist_bucket
    handle_new_bucket room_id bucket_id label k =
        let label_trimmed = trim label in
        let label_opt = if is_empty_str label_trimmed then none else some label_trimmed in
        finish_edit open_db room_id new_bucket_response
          (persist_bucket room_id bucket_id label_opt 0) k
          (edit_room room_id (make_bucket bucket_id label_trimmed) k.state)

    unfoldable pub handle_delete_bucket :
        (room_id bucket_id : ℕ) → SyncpondKernel V D C → CommandResponse × SyncpondKernel V D C
    unfolding edit_room drop_bucket finish_edit remove_bucket
    handle_delete_bucket room_id bucket_id k =
        finish_edit open_db room_id delete_bucket_response (remove_bucket room_id bucket_id) k
          (edit_room room_id (drop_bucket bucket_id) k.state)

  module _ ⦃M : Serde (List String)⦄ where
    unfoldable pub handle_new_member :
        (room_id : ℕ) (member : String)
        → SyncpondKernel V D C
        → CommandResponse × SyncpondKernel V D C
    unfolding trim edit_room make_member finish_edit persist_member
    handle_new_member room_id member k =
        finish_edit open_db room_id new_member_response (persist_member room_id (trim member)) k
          (edit_room room_id (make_member (trim member)) k.state)

    unfoldable pub handle_delete_member :
        (room_id : ℕ) (member : String)
        → SyncpondKernel V D C
        → CommandResponse × SyncpondKernel V D C
    unfolding trim edit_room drop_member finish_edit Rooms.remove_member
    handle_delete_member room_id member k =
        finish_edit open_db room_id delete_member_response
          (Rooms.remove_member room_id (trim member)) k
          (edit_room room_id (drop_member (trim member)) k.state)
