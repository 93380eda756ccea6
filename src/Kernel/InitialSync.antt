-- ===== src/Kernel/InitialSync.antt =====
-- `handle_client_connected`, server/crates/sp-kernel/src/kernel.rs: the values of its buckets
-- that a new client is sent.
pub mod Sent
use syncpond.Base.{ℕ, String, not, Option, none, some, List, [], ◌∷◌, ◌++◌, ok, err, if◌then◌else◌}
use syncpond.Base.Eq.{nat_eq}
use syncpond.Base.HashMap.{get}
use syncpond.Extern.Json.{Json}
use syncpond.Protocol.{DataUpdate, UpdateChannelMessage, targeted}
use syncpond.State.{FragmentEntry, Fragments, RoomState, Outcome, room_of}
use syncpond.Hub.{WsHub, get_client_room_id}
use syncpond.Kernel.{SyncpondKernel, notify}

module _ {V : Type 0} ⦃J : Json V⦄ where
  update_of : ℕ → String → FragmentEntry V → DataUpdate V
  update_of bucket_id key entry = record {
    bucket_id = bucket_id;
    key = key;
    value = some entry.value;
    bucket_counter = entry.key_version;
  }

  unfoldable pub live_updates : (bucket_id : ℕ) → Fragments V → List (DataUpdate V)
  unfolding update_of
  live_updates bucket_id [] = []
  live_updates bucket_id ((key, entry) ∷ m) =
      let rest = live_updates bucket_id m in
      if not (J.is_null entry.value) then update_of bucket_id key entry ∷ rest else rest

  updates_of_bucket : ℕ → Option (Fragments V) → List (DataUpdate V)
  unfolding live_updates
  updates_of_bucket bucket_id none = []
  updates_of_bucket bucket_id (some m) = live_updates bucket_id m

  unfoldable pub collect_updates : List ℕ → RoomState V → List (DataUpdate V)
  unfolding get updates_of_bucket
  collect_updates [] room = []
  collect_updates (b ∷ requested) room =
      updates_of_bucket b (get b room.buckets) ++ collect_updates requested room

  updates_in : List ℕ → Outcome (RoomState V) → List (DataUpdate V)
  unfolding collect_updates
  updates_in requested (err e) = []
  updates_in requested (ok room) = collect_updates requested room

  -- The targeted messages, until one finds the channel full.
  unfoldable pub target_each :
      (conn_id : ℕ)
      → List (DataUpdate V)
      → List (UpdateChannelMessage V)
      → List (UpdateChannelMessage V)
  unfolding notify
  target_each conn_id [] queue = queue
  target_each conn_id (update ∷ updates) queue =
      let sent = notify (targeted conn_id update) queue in
      let rest = target_each conn_id updates sent.1 in elim sent.0 [ ok _ ↦ rest | err _ ↦ queue ]

  unfoldable pub handle_client_connected :
      {S D C : Type 0} (conn_id : ℕ) (requested_buckets : List ℕ)
      → WsHub S
      → SyncpondKernel V D C
      → SyncpondKernel V D C
  unfolding get_client_room_id room_of updates_in target_each
  handle_client_connected conn_id requested_buckets hub k = elim (get_client_room_id conn_id hub) [
    | none ↦ k
    | some room_id ↦ record k {
      notifications =
          target_each conn_id (updates_in requested_buckets (room_of room_id k.state))
            k.notifications;
    }
  ]
