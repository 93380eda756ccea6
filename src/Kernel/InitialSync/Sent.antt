-- ===== src/Kernel/InitialSync/Sent.antt =====
-- What a client that connects is sent.
use mathlib.Core.List.{append_assoc, append-nil}
use syncpond.Base.{
  ℕ, ◌+◌, ◌≤◌, String, ◌≡◌, refl, ◌&&◌, Option, none, some, List, [], ◌∷◌, ◌++◌, map, arith,
  if◌then◌else◌, length, Option-cases, inl, inr, ok, sym,
}
use syncpond.Base.Eq.{nat_eq, string_eq, ◌==◌, ==_iff}
use syncpond.Base.HashMap.{get}
use syncpond.Base.HashMap.Unique.{IsMap, Values-at}
use syncpond.Base.HashSet.{contains}
use syncpond.Base.HashSet.Distinct.{IsDistinct}
use syncpond.Extern.Json.{Json}
use syncpond.Protocol.{DataUpdate, UpdateChannelMessage, targeted}
use syncpond.State.{FragmentEntry, Fragments, RoomState, room_of}
use syncpond.State.Fragments.Entries.{in_bucket, entry_at}
use syncpond.State.Fragments.Versions.{IsTable, IsVersioned}
use syncpond.Hub.{WsHub, get_client_room_id}
use syncpond.Kernel.{SyncpondKernel, notify, channel_capacity}
use syncpond.Kernel.InitialSync.{
  update_of, live_updates, updates_of_bucket, collect_updates, updates_in, target_each,
  handle_client_connected,
}

-- The values and the versions of all the updates of a key of a bucket.
abbrev pub sent_at : {V : Type 0} → ℕ → String → List (DataUpdate V) → List (Option V × ℕ)
sent_at b k [] = []
sent_at b k (u ∷ us) =
    let rest = sent_at b k us in
    if u.bucket_id == b && u.key == k then (u.value, u.bucket_counter) ∷ rest else rest

length-snoc : {A : Type 0} (l : List A) (a : A) → length (l ++ (a ∷ [])) ≡ length l + 1
length-snoc [] a = refl
length-snoc (x ∷ l) a = ground (arith, length-snoc l a)

module _ {V : Type 0} ⦃J : Json V⦄ where
  -- The value and the version of an entry that is no tombstone.
  abbrev pub live_entry : Option (FragmentEntry V) → List (Option V × ℕ)
  live_entry none = []
  live_entry (some e) = if J.is_null e.value then [] else (some e.value, e.key_version) ∷ []

  sent_at-++ :
      (b : ℕ) (k : String) (us vs : List (DataUpdate V))
      → sent_at b k (us ++ vs) ≡ sent_at b k us ++ sent_at b k vs
  sent_at-++ b k [] vs = refl
  sent_at-++ b k (u ∷ us) vs = ground (arith, sent_at-++ b k us vs)

  sent_at-live_updates :
      (c b : ℕ) (k : String) (m : Fragments V)
      → IsMap m
      → sent_at b k (live_updates c m) ≡ (if c == b then live_entry (get k m) else [])
  unfolding live_updates update_of get
  sent_at-live_updates c b k [] h = ground arith
  sent_at-live_updates c b k ((key, entry) ∷ m) h =
      ground (arith, sent_at-live_updates c b k m h.1, ==_iff c b, ==_iff key k)

  sent_at-bucket :
      (c b : ℕ) (k : String) (room : RoomState V)
      → IsTable room.buckets
      → sent_at b k (updates_of_bucket c (get c room.buckets))
        ≡ (if c == b then live_entry (entry_at b k room) else [])
  unfolding updates_of_bucket entry_at in_bucket
  sent_at-bucket c b k room h = elim (Option-cases (get c room.buckets)) [
    | inl none_at ↦ ground (arith, ==_iff c b)
    | inr (m, at_c) ↦ ground (
      arith,
      ==_iff c b,
      sent_at-live_updates c b k m (Values-at IsMap c m room.buckets h.1 at_c),
    )
  ]

  pub sent_at-collect_updates :
      (requested : List ℕ) (b : ℕ) (k : String) (room : RoomState V)
      → IsDistinct requested
      → IsTable room.buckets
      → sent_at b k (collect_updates requested room)
        ≡ (if contains b requested then live_entry (entry_at b k room) else [])
  unfolding collect_updates contains
  sent_at-collect_updates [] b k room distinct h = refl
  sent_at-collect_updates (c ∷ requested) b k room distinct h = ground (
    arith,
    sent_at-bucket c b k room h,
    sent_at-collect_updates requested b k room distinct.1 h,
    distinct.0,
    append-nil (live_entry (entry_at b k room)),
    sent_at-++ b k (updates_of_bucket c (get c room.buckets)) (collect_updates requested room),
  )

  target_each-fits :
      (conn_id : ℕ) (updates : List (DataUpdate V)) (queue : List (UpdateChannelMessage V))
      → length queue + length updates ≤ channel_capacity
      → target_each conn_id updates queue ≡ queue ++ map (targeted conn_id) updates
  unfolding target_each notify
  target_each-fits conn_id [] queue space = sym (append-nil queue)
  target_each-fits conn_id (u ∷ us) queue space =
      let msg : UpdateChannelMessage V = targeted conn_id u in
      let rest =
        target_each-fits conn_id us (queue ++ (msg ∷ [])) (ground (arith, length-snoc queue msg)) in
      ground (arith, rest, append_assoc queue (msg ∷ []) (map (targeted conn_id) us))

  -- When a client has connected whose room can be read, that asks for no bucket twice and whose
  -- values all fit into the channel: the channel has gained messages, all of them for this client,
  -- and of each bucket and key exactly one, with the value and the version that the room has,
  -- where the bucket was asked for and the value is no tombstone; of all others none. Of a room in
  -- which each bucket and key stands once, as in every reachable state.
  pub handle_client_connected-sends :
      {S D C : Type 0} (conn_id i : ℕ) (requested : List ℕ) (hub : WsHub S) (room : RoomState V)
      (k : SyncpondKernel V D C)
      → get_client_room_id conn_id hub ≡ some i
      → room_of i k.state ≡ ok room
      → IsVersioned room
      → IsDistinct requested
      → length k.notifications + length (collect_updates requested room) ≤ channel_capacity
      → (updates : List (DataUpdate V)) × ((handle_client_connected conn_id requested hub
            k).notifications
          ≡ k.notifications ++ map (targeted conn_id) updates)
        × ((b : ℕ) (key : String)
            → sent_at b key updates
              ≡ (if contains b requested then live_entry (entry_at b key room) else []))
  unfolding handle_client_connected updates_in
  handle_client_connected-sends conn_id i requested hub room k known found sound distinct space = (
    collect_updates requested room,
    ground (arith, target_each-fits conn_id (collect_updates requested room) k.notifications space),
    λ b key. sent_at-collect_updates requested b key room distinct sound.table,
  )
