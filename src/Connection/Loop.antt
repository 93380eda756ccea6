-- ===== src/Connection/Loop.antt =====
-- The loop of `handle_ws_connection` after the handshake, and what follows it;
-- server/crates/sp-downstream/src/connection.rs. What `select!` takes next, and whether the socket
-- takes a frame, are arguments.
pub mod Rounds
pub mod Served
use syncpond.Base.{
  ℕ, Bool, true, false, not, Option, none, some, List, [], ◌∷◌, ◌++◌, if◌then◌else◌,
}
use syncpond.Extern.Json.{Bytes}
use syncpond.Extern.Wire.{Wire}
use syncpond.Protocol.{DownstreamMessage, client_disconnected}
use syncpond.Hub.{WsHub, remove_client}
use syncpond.Connection.{Received, close, react, Reaction, ends, ignored, pongs, replies, sends}

-- What `select!` takes: a frame of the client, or what `rx.recv()` gives of the client's queue.
pub data Incoming : Type 0 where
  from_client : Received → Incoming
  from_queue : Option Bytes → Incoming

-- One round of the loop: `hub` is the hub at its lock, `delivered` tells whether the socket takes
-- the frame that the round writes.
pub record Round (S : Type 0) : Type 0 where
  pub incoming : Incoming
  pub delivered : Bool
  pub hub : WsHub S

-- A frame that goes to the client.
pub data Outgoing : Type 0 where
  pong_frame : Bytes → Outgoing
  binary_frame : Bytes → Outgoing
  close_frame : Outgoing

-- What a round, or the loop, comes to: whether the loop has ended, what was written to the client
-- and what was sent to the kernel.
pub record Looped : Type 0 where
  pub ended : Bool
  pub written : List Outgoing
  pub sent : List DownstreamMessage

-- `ws_sender.send(…).await.ok()`
unfoldable pub write : Bool → Outgoing → List Outgoing
write delivered frame = if delivered then frame ∷ [] else []

unfoldable pub send_some : Option DownstreamMessage → List DownstreamMessage
send_some none = []
send_some (some message) = message ∷ []

module _ ⦃W : Wire⦄ where
  unfoldable pub follow : (delivered : Bool) → Reaction → Looped
  unfolding write send_some
  follow delivered ends = record { ended = true; written = []; sent = [] }
  follow delivered ignored = record { ended = false; written = []; sent = [] }
  follow delivered (pongs payload) = record {
    ended = false;
    written = write delivered (pong_frame payload);
    sent = [];
  }
  follow delivered (replies payload) = record {
    ended = false;
    written = write delivered (binary_frame (W.encode_to_vec (some payload)));
    sent = [];
  }
  follow delivered (sends message) = record {
    ended = false;
    written = [];
    sent = send_some message;
  }

  module _ {S : Type 0} (conn_id : ℕ) where
    unfoldable pub take : (delivered : Bool) → WsHub S → Incoming → Looped
    unfolding follow write react
    take delivered hub (from_client close) = record {
      ended = true;
      written = write delivered close_frame;
      sent = [];
    }
    take delivered hub (from_client frame) = follow delivered (react conn_id hub frame)
    take delivered hub (from_queue none) = record { ended = true; written = []; sent = [] }
    take delivered hub (from_queue (some event)) = record {
      ended = not delivered;
      written = write delivered (binary_frame event);
      sent = [];
    }

    unfoldable pub select_loop : List (Round S) → Looped
    unfolding take
    select_loop [] = record { ended = false; written = []; sent = [] }
    select_loop (round ∷ rounds) =
        let now = take round.delivered round.hub round.incoming in
        let rest = select_loop rounds in
        if now.ended then now else record {
          ended = rest.ended;
          written = now.written ++ rest.written;
          sent = now.sent ++ rest.sent;
        }

    -- The loop, and what follows it once it has ended; `hub` is the hub by then. `told`: the channel
    -- to the kernel takes `ClientDisconnected`; where it is full, `try_send(…).ok()` drops it.
    unfoldable pub serve_client : (told : Bool) → List (Round S) → WsHub S → Looped × WsHub S
    unfolding select_loop remove_client
    serve_client told rounds hub =
        let looped = select_loop rounds in
        if looped.ended
        then (
          record looped {
            sent = looped.sent ++ (if told then client_disconnected conn_id ∷ [] else []);
          },
          remove_client conn_id hub,
        )
        else (looped, hub)
