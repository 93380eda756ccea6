-- ===== src/State/Views/Catchup.antt =====
-- `room_snapshot` and `room_delta` together: how a client that was away catches up.
use syncpond.Base.{
  ℕ, ◌+◌, ◌<◌, String, ◌≡◌, none, some, List, arith, ok, length, ◌⊎◌, inl, inr, u64_mod,
}
use syncpond.Base.Eq.{nat_eq, ==_refl}
use syncpond.Base.HashSet.{HashSet}
use syncpond.Extern.Json.{Json}
use syncpond.State.{RoomCommand, RoomState, AppState, room_of}
use syncpond.State.Fragments.Versions.{IsVersioned}
use syncpond.State.Members.{usable}
use syncpond.State.Transactions.{tx_end, drain}
use syncpond.State.Transactions.Requests.{request_all, OnlyRoom, request_all_direct}
use syncpond.State.Transactions.Atomic.{transaction, transaction-commit}
use syncpond.State.Views.{RoomView, snapshot_of_room, delta_of_room, room_snapshot, room_delta}
use syncpond.State.Views.Exact.{view_at, room_counter-delta}
use syncpond.State.Views.Sync.{patched, patch_room, drain-IsVersioned}

module _ {V : Type 0} ⦃J : Json V⦄ where
  -- The views that a client gets before and after, and what it makes of them.
  pub record CaughtUp (i : ℕ) (allowed : HashSet ℕ) (app app' : AppState V) : Type 0 where
    pub old : RoomView V
    pub delta : RoomView V
    pub new : RoomView V
    pub snapshot : room_snapshot i allowed app ≡ some old
    pub since : room_delta i old.room_counter allowed app' ≡ some delta
    pub full : room_snapshot i allowed app' ≡ some new
    pub version : delta.room_counter ≡ new.room_counter
    pub equal : (b : ℕ) (k : String) → patched old delta b k ≡ view_at b k new

  caught_up :
      (i : ℕ) (allowed : HashSet ℕ) (cs : List (RoomCommand V)) (app app' : AppState V)
      (room : RoomState V)
      → room_of i app ≡ ok room
      → IsVersioned room
      → room.room_counter + length cs < u64_mod
      → OnlyRoom i (drain room cs) app app'
      → CaughtUp i allowed app app'
  unfolding room_snapshot room_delta snapshot_of_room
  caught_up i allowed cs app app' room h v bound only =
      let here : room_of i app' ≡ ok (drain room cs) = ground (arith, only i, ==_refl i) in
      let (run, count) = drain-IsVersioned cs room bound v in
      record {
        old = snapshot_of_room allowed room;
        delta = delta_of_room room.room_counter allowed (drain room cs);
        new = snapshot_of_room allowed (drain room cs);
        snapshot = rw h;
        since = rw here;
        full = rw here;
        version = room_counter-delta room.room_counter allowed (drain room cs);
        equal = λ b k.
            patch_room allowed room.room_counter room (drain room cs) b k v (v.versions b k) run;
      }

  -- Take a usable room with no open transaction, short of the counter's wrap-around, and any
  -- sequence of SET and DEL requests that succeeds, directly or in a transaction that commits.
  -- A client that had the snapshot from before and applies the delta since the version that came
  -- with it shows, for every bucket and key, what a new snapshot shows, at the same version.
  pub snapshot-delta :
      (i : ℕ) (allowed : HashSet ℕ) (cs : List (RoomCommand V)) (app app' : AppState V)
      (room : RoomState V)
      → room_of i app ≡ ok room
      → usable room ≡ ok tt
      → room.tx_buffer ≡ none
      → IsVersioned room
      → room.room_counter + length cs < u64_mod
      → (request_all i cs app ≡ ok app') ⊎ (transaction i cs (tx_end i) app ≡ ok app')
      → CaughtUp i allowed app app'
  snapshot-delta i allowed cs app app' room h u t v bound (inl run) =
      caught_up i allowed cs app app' room h v bound (request_all_direct i cs app room app' h t run)
  snapshot-delta i allowed cs app app' room h u t v bound (inr run) =
      let (app₁, committed, only) = transaction-commit i cs app room h u t in
      let same : app₁ ≡ app' = cc in
      caught_up i allowed cs app app' room h v bound (λ n. rw (← same) (only n))
