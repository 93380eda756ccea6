-- ===== src/Connection/Loop/Served.antt =====
-- When the loop of a connection ends, and what the hub and the kernel then know.
use syncpond.Base.{
  ℕ, Bool, ◌≡◌, ◌∙◌, sym, refl, true, false, none, List, [], ◌∷◌, ◌++◌, arith, if◌then◌else◌,
  Bool-cases, Option-cases, inl, inr,
}
use mathlib.Core.List.{append-nil}
use syncpond.Base.Eq.{nat_eq, ==_refl}
use syncpond.Base.HashMap.{get, contains_key, get-remove}
use syncpond.Base.HashSet.{contains}
use syncpond.Extern.Wire.{Wire}
use syncpond.Protocol.{DownstreamMessage, client_disconnected}
use syncpond.Hub.{WsHub, clients_at, remove_client}
use syncpond.Hub.HubInvariant.{HubInv, remove_client-HubInv}
use syncpond.Connection.Loop.{Round, Looped, take, select_loop, serve_client}
use syncpond.Connection.Loop.Rounds.{
  is_last, has_last, to_first_last, all_written, all_sent, InRoom, AllFor, AllFor-append, take_last,
  take_sent,
}

module _ {S : Type 0} ⦃W : Wire⦄ (c : ℕ) where
  -- The loop ends exactly where some round ends it, and all that it sends goes to the room.
  record Loops (room : ℕ) (rounds : List (Round S)) (looped : Looped) : Type 0 where
    at_last : looped.ended ≡ has_last rounds
    to_room : AllFor room looped.sent
    written_to : looped.written ≡ all_written c (to_first_last rounds)
    sent_to : looped.sent ≡ all_sent c (to_first_last rounds)

  select_loop-Loops :
      (room : ℕ) (rounds : List (Round S))
      → InRoom c room rounds
      → Loops room rounds (select_loop c rounds)
  unfolding select_loop
  select_loop-Loops room [] known = record {
    at_last = refl;
    to_room = tt;
    written_to = refl;
    sent_to = refl;
  }
  select_loop-Loops room (round ∷ rounds) (here, later) =
      let now = take c round.delivered round.hub round.incoming in
      let is_end = take_last c round.delivered round.hub round.incoming in
      let sent_now = take_sent c room round.delivered round.hub round.incoming here in
      let rest = select_loop-Loops room rounds later in
      elim (Bool-cases now.ended) [
        | inl e ↦
            let last : is_last round.delivered round.incoming ≡ true = sym is_end ∙ e in
            rw e (record {
              at_last = ground arith;
              to_room = sent_now;
              written_to = rw last (sym (append-nil _));
              sent_to = rw last (sym (append-nil _));
            })
        | inr e ↦ rw e (record {
          at_last = ground (arith, rest.at_last);
          to_room = AllFor-append room now.sent _ sent_now rest.to_room;
          written_to = ground (arith, rest.written_to);
          sent_to = ground (arith, rest.sent_to);
        })
      ]

  -- What a connection leaves.
  pub record IsServed (told : Bool) (room : ℕ) (rounds : List (Round S)) (hub : WsHub S)
      (served : Looped × WsHub S) : Type 0 where
    pub commands : List DownstreamMessage
    pub written_to : served.0.written ≡ all_written c (to_first_last rounds)
    pub sent_to : commands ≡ all_sent c (to_first_last rounds)
    pub at_last : served.0.ended ≡ has_last rounds
    pub to_room : AllFor room commands
    pub last_told : served.0.sent ≡ (
        if has_last rounds
        then commands ++ (if told then client_disconnected c ∷ [] else [])
        else commands)
    pub gone :
        contains_key c served.1.connections
        ≡ (if has_last rounds then false else contains_key c hub.connections)
    pub unsubscribed :
        (b : ℕ)
        → contains c (clients_at b served.1.buckets)
          ≡ (if has_last rounds then false else contains c (clients_at b hub.buckets))
    pub sound : HubInv served.1

  get-remove_client : (hub : WsHub S) → get c (remove_client c hub).connections ≡ none
  unfolding remove_client
  get-remove_client hub = elim (Option-cases (get c hub.connections)) [
    | inl none_there ↦ ground arith
    | inr (client, there) ↦ ground (arith, get-remove c c hub.connections, ==_refl c)
  ]

  -- The loop of a connection takes the rounds up to the first in which the client closes or is
  -- gone, its queue is closed, or an event of its queue cannot be written, and no round after it:
  -- what is written to the client and sent to the kernel is what these rounds write and send, in
  -- order. Where the hub, whenever it is asked, has the connection in one room or not at all: all
  -- that was sent to the kernel are messages to that room. Where the loop ends, the kernel is told
  -- last of all that the client has disconnected, if its channel takes that message, and then the
  -- hub, whose invariant holds, has no such connection and no such subscriber; where it does not,
  -- the hub is as it was.
  pub serve_client-IsServed :
      (told : Bool) (room : ℕ) (rounds : List (Round S)) (hub : WsHub S)
      → InRoom c room rounds
      → HubInv hub
      → IsServed told room rounds hub (serve_client c told rounds hub)
  unfolding serve_client
  serve_client-IsServed told room rounds hub known h =
      let looped = select_loop c rounds in
      let loops = select_loop-Loops room rounds known in
      let removed = get-remove_client hub in
      let after = remove_client-HubInv c hub h in
      elim (Bool-cases (has_last rounds)) [
        | inl e ↦
            let over : looped.ended ≡ true = loops.at_last ∙ e in
            rw over (record {
              commands = looped.sent;
              written_to = loops.written_to;
              sent_to = loops.sent_to;
              at_last = sym e;
              to_room = loops.to_room;
              last_told = rw e refl;
              gone = unfold contains_key in ground arith;
              unsubscribed = λ b. ground (arith, after.index c b);
              sound = after;
            })
        | inr e ↦
            let on : looped.ended ≡ false = loops.at_last ∙ e in
            rw on (record {
              commands = looped.sent;
              written_to = loops.written_to;
              sent_to = loops.sent_to;
              at_last = loops.at_last;
              to_room = loops.to_room;
              last_told = rw e refl;
              gone = rw e refl;
              unsubscribed = λ b. rw e refl;
              sound = h;
            })
      ]
