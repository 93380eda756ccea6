-- ===== src/Kernel/Reachable/Channel.antt =====
-- The channel of notifications is never filled past its capacity.
use syncpond.Base.{ℕ, ◌+◌, ◌≤◌, ◌≡◌, List, [], ◌∷◌, ◌++◌, arith, length}
use syncpond.Extern.Json.{Json}
use syncpond.Protocol.{DataUpdate, UpdateChannelMessage, targeted}
use syncpond.Kernel.{notify, channel_capacity}
use syncpond.Kernel.InitialSync.{target_each}
use syncpond.Kernel.Reachable.{without_first}

module _ {V : Type 0} where
  length-append_one :
      (queue : List (UpdateChannelMessage V)) (msg : UpdateChannelMessage V)
      → length (queue ++ msg ∷ []) ≡ length queue + 1
  length-append_one [] msg = omega arith
  length-append_one (m ∷ queue) msg = omega (arith, length-append_one queue msg)

  -- The channel is never filled past its capacity.
  pub notify-bound :
      (msg : UpdateChannelMessage V) (queue : List (UpdateChannelMessage V))
      → length queue ≤ channel_capacity
      → length ((notify msg queue).1) ≤ channel_capacity
  unfolding notify
  notify-bound msg queue h = ground (arith, length-append_one queue msg)

  pub target_each-bound :
      ⦃J : Json V⦄ (conn_id : ℕ) (updates : List (DataUpdate V))
      (queue : List (UpdateChannelMessage V))
      → length queue ≤ channel_capacity
      → length (target_each conn_id updates queue) ≤ channel_capacity
  unfolding target_each
  target_each-bound conn_id [] queue h = h
  target_each-bound conn_id (update ∷ updates) queue h =
      let sent = notify (targeted conn_id update) queue in
      let rest =
        target_each-bound conn_id updates sent.1 (notify-bound (targeted conn_id update) queue h) in
      ground arith

  pub without_first-bound :
      (queue : List (UpdateChannelMessage V))
      → length queue ≤ channel_capacity
      → length (without_first queue) ≤ channel_capacity
  unfolding without_first
  without_first-bound [] h = h
  without_first-bound (msg ∷ queue) h = omega arith
