-- ===== src/Kernel/Reachable/Runs.antt =====
-- What holds at the kernel after any sequence of events.
use native.Mathlib.Nat.{add-zero}
use syncpond.Base.{
  Option-cases, ℕ, suc, ◌+◌, ◌<◌, String, ◌≡◌, none, some, List, [], ◌∷◌, arith, Result, inl, inr,
  u64_mod, length, if◌then◌else◌,
}
use syncpond.Base.Eq.{nat_eq}
use syncpond.Base.HashMap.{get}
use syncpond.Base.Text.{trim, is_empty_str}
use syncpond.Extern.Json.{Json, Bytes}
use syncpond.Extern.Rocks.{Rocks, Lru, Serde}
use syncpond.Protocol.{
  Commands, new_bucket_response, delete_bucket_response, new_member_response,
  delete_member_response, DownstreamMessage, client_connected, client_disconnected, ws_message,
}
use syncpond.State.Reachable.{Call}
use syncpond.State.Reachable
use syncpond.State.Reachable.AppInvariant.{AppInv-mono}
use syncpond.Persistence.{BucketRecord, BucketRecords}
use syncpond.Persistence.Buckets.{persist_bucket, remove_bucket}
use syncpond.Persistence.Rooms.{persist_member, remove_member}
use syncpond.Hub.{WsHub}
use syncpond.Kernel.{SyncpondKernel, edit_room}
use syncpond.Kernel.Buckets.{
  make_bucket, drop_bucket, make_member, drop_member, handle_new_bucket, handle_delete_bucket,
  handle_new_member, handle_delete_member,
}
use syncpond.Kernel.Writing.{
  handle_read_fragment, parse_value, set_value, persist_value, announce_value,
}
use syncpond.Kernel.Commands.{handle_command}
use syncpond.Kernel.InitialSync.{handle_client_connected}
use syncpond.Kernel.Reachable.{
  Event, commanded, deleting, issuing, notified, setting, persisting, announcing, forwarded, event,
  events, process_message, take_notification,
}
use syncpond.Kernel.Reachable.Channel.{target_each-bound, notify-bound, without_first-bound}
use syncpond.Kernel.Reachable.Invariant.{
  KernelInv, KernelInv-mono, finish_edit-KernelInv, new_room-KernelInv, write_fragment-KernelInv,
  unload_room-KernelInv, delete_room-KernelInv, called-KernelInv,
}
use syncpond.Kernel.Reachable.Loads.{load_room-KernelInv}
use syncpond.Kernel.Reachable.Edits.{
  edit_room-AppInv, make_bucket-Preserves, drop_bucket-Preserves, make_member-Preserves,
  drop_member-Preserves,
}

module _ {V D C S : Type 0} ⦃J : Json V⦄ where
  process_message-KernelInv :
      (n : ℕ) (hub : WsHub S) (message : DownstreamMessage) (k : SyncpondKernel V D C)
      → KernelInv n k
      → KernelInv (suc n) (process_message hub message k)
  unfolding process_message handle_client_connected
  process_message-KernelInv n hub (client_connected conn_id requested) k inv =
      elim (Option-cases (get conn_id hub.connections)) [
        | inl gone ↦ rw (gone, handle_client_connected) (KernelInv-mono n k inv)
        | inr (client, there) ↦
            rw (there, handle_client_connected)
              (record {
                sound = AppInv-mono n k.state inv.sound;
                room = target_each-bound conn_id _ k.notifications inv.room;
              })
      ]
  process_message-KernelInv n hub (client_disconnected conn_id) k inv = KernelInv-mono n k inv
  process_message-KernelInv n hub (ws_message i msg) k inv = KernelInv-mono n k inv

module _ {V D C : Type 0} ⦃J : Json V⦄ ⦃R : Rocks D⦄ ⦃L : Lru BucketRecords C⦄ ⦃I : Serde (List ℕ)⦄
    ⦃M : Serde (List String)⦄ ⦃B : Serde BucketRecord⦄ (open_db : ℕ → Result D String)
    (from_utf8_lossy : Bytes → String) where
  handle_command-KernelInv :
      (n : ℕ) (command : Commands) (k : SyncpondKernel V D C)
      → suc (suc n) < u64_mod
      → KernelInv n k
      → KernelInv (suc n) ((handle_command open_db from_utf8_lossy command k).1)
  unfolding handle_command handle_new_bucket handle_delete_bucket handle_new_member
      handle_delete_member handle_read_fragment
  handle_command-KernelInv n (Commands.new_room name) k bound inv =
      new_room-KernelInv open_db n name k bound inv
  handle_command-KernelInv n (Commands.new_bucket i b label) k bound inv =
      finish_edit-KernelInv open_db n i new_bucket_response
        (persist_bucket i b (if is_empty_str (trim label) then none else some (trim label)) 0) k
        (edit_room i (make_bucket b (trim label)) k.state)
        (edit_room-AppInv n i _ k.state (make_bucket-Preserves b (trim label)) inv.sound) inv
  handle_command-KernelInv n (Commands.delete_bucket i b) k bound inv =
      finish_edit-KernelInv open_db n i delete_bucket_response (remove_bucket i b) k
        (edit_room i (drop_bucket b) k.state)
        (edit_room-AppInv n i _ k.state (drop_bucket-Preserves b) inv.sound) inv
  handle_command-KernelInv n (Commands.new_member i member) k bound inv =
      finish_edit-KernelInv open_db n i new_member_response (persist_member i (trim member)) k
        (edit_room i (make_member (trim member)) k.state)
        (edit_room-AppInv n i _ k.state (make_member-Preserves (trim member)) inv.sound) inv
  handle_command-KernelInv n (Commands.delete_member i member) k bound inv =
      finish_edit-KernelInv open_db n i delete_member_response (remove_member i (trim member)) k
        (edit_room i (drop_member (trim member)) k.state)
        (edit_room-AppInv n i _ k.state (drop_member-Preserves (trim member)) inv.sound) inv
  handle_command-KernelInv n (Commands.write_fragment i b key content) k bound inv =
      write_fragment-KernelInv open_db from_utf8_lossy n i b key content k bound inv
  handle_command-KernelInv n (Commands.read_fragment i b key) k bound inv = KernelInv-mono n k inv
  handle_command-KernelInv n (Commands.load_room i) k bound inv =
      load_room-KernelInv open_db n i k bound inv
  handle_command-KernelInv n (Commands.unload_room i) k bound inv =
      unload_room-KernelInv n i k bound inv

module _ {V D C S : Type 0} ⦃J : Json V⦄ ⦃R : Rocks D⦄ ⦃L : Lru BucketRecords C⦄
    ⦃I : Serde (List ℕ)⦄ ⦃M : Serde (List String)⦄ ⦃B : Serde BucketRecord⦄
    (open_db : ℕ → Result D String) (from_utf8_lossy : Bytes → String) where
  event-KernelInv :
      (n : ℕ) (e : Event S) (k : SyncpondKernel V D C)
      → suc (suc n) < u64_mod
      → KernelInv n k
      → KernelInv (suc n) (event open_db from_utf8_lossy e k)
  unfolding event take_notification Reachable.step set_value persist_value announce_value
  event-KernelInv n (commanded command) k bound inv =
      handle_command-KernelInv open_db from_utf8_lossy n command k bound inv
  event-KernelInv n (deleting i) k bound inv = delete_room-KernelInv n i k bound inv
  event-KernelInv n (issuing encode clock i sub buckets) k bound inv = record {
    sound = called-KernelInv n (Call.issues_token encode clock i sub buckets) k bound inv;
    room = inv.room;
  }
  event-KernelInv n (notified hub message) k bound inv =
      process_message-KernelInv n hub message k inv
  event-KernelInv n (setting i b key bytes) k bound inv = record {
    sound =
        called-KernelInv n (Call.sets_fragment i b key (parse_value from_utf8_lossy bytes)) k bound
          inv;
    room = inv.room;
  }
  event-KernelInv n (persisting i b key bytes) k bound inv = record {
    sound = AppInv-mono n k.state inv.sound;
    room = inv.room;
  }
  event-KernelInv n (announcing b key bytes room_counter) k bound inv = record {
    sound = AppInv-mono n k.state inv.sound;
    room = notify-bound _ k.notifications inv.room;
  }
  event-KernelInv n forwarded k bound inv = record {
    sound = AppInv-mono n k.state inv.sound;
    room = without_first-bound k.notifications inv.room;
  }

  -- From a kernel whose state satisfies the invariant at a count, and whose channel is within its
  -- capacity, any sequence of events, failing ones included, with the counts short of 2 ^ 64: the
  -- state satisfies the invariant at the count and the events, and the channel holds at most 1024
  -- messages.
  pub events-KernelInv :
      (n : ℕ) (es : List (Event S)) (k : SyncpondKernel V D C)
      → n + length es + 1 < u64_mod
      → KernelInv n k
      → KernelInv (n + length es) (events open_db from_utf8_lossy es k)
  unfolding events
  events-KernelInv n [] k bound inv = rw add-zero inv
  events-KernelInv n (e ∷ es) k bound inv =
      let shift : n + suc (length es) ≡ suc n + length es = omega arith in
      rw shift (
        events-KernelInv (suc n) es (event open_db from_utf8_lossy e k) (omega arith)
          (event-KernelInv n e k (omega arith) inv))
