-- ===== src/State/Transactions/Atomic.antt =====
-- A transaction takes effect at its end, as a whole, or not at all.
use syncpond.Base.{ℕ, String, ◌≡◌, refl, sym, ◌∙◌, none, some, List, [], arith, ok, ◌>>=◌}
use syncpond.Base.Eq.{nat_eq, ==_iff, ==_refl}
use syncpond.Extern.Json.{Json}
use syncpond.State.{RoomCommand, RoomState, AppState, Outcome, room_of, put_room, update_room}
use syncpond.State.Access.{room_of-put_room_self, update_room_at}
use syncpond.State.Members.{usable}
use syncpond.State.Fragments.{get_in_room, get_fragment}
use syncpond.State.Transactions.{
  begin_in_room, tx_begin, abort_in_room, tx_abort, drain, end_in_room, tx_end,
}
use syncpond.State.Transactions.Requests.{
  request_all, OnlyRoom, OnlyRoom-put_room, OnlyRoom-trans, usable_buffered, request_all_buffered,
  request_all_direct,
}

module _ {V : Type 0} ⦃J : Json V⦄ where
  -- begin, the requests, and then `finish`, up to the first error
  unfoldable pub transaction :
      ℕ
      → List (RoomCommand V)
      → (AppState V → Outcome (AppState V))
      → AppState V
      → Outcome (AppState V)
  transaction i cs finish app = tx_begin i app >>= request_all i cs >>= finish

  -- The room while its transaction holds the commands `cs`.
  abbrev holding : RoomState V → List (RoomCommand V) → RoomState V
  holding room cs = record room { tx_buffer = some cs }

  -- Up to the end everything succeeds, and the room differs in its buffer alone.
  open_transaction :
      (i : ℕ) (cs : List (RoomCommand V)) (app : AppState V) (room : RoomState V)
      → room_of i app ≡ ok room
      → usable room ≡ ok tt
      → room.tx_buffer ≡ none
      → (app' : AppState V) × ((tx_begin i app >>= request_all i cs) ≡ ok app')
        × OnlyRoom i (holding room cs) app app'
  unfolding tx_begin begin_in_room usable
  open_transaction i cs app room h u t =
      let room₁ = holding room [] in
      let begun : tx_begin i app ≡ ok (put_room i room₁ app) = ground (arith) in
      let (app', run, only) =
        request_all_buffered i cs (put_room i room₁ app) room₁ []
          (room_of-put_room_self i room₁ app) (usable_buffered room (some []) u) refl in
      (
        app',
        rw begun run,
        OnlyRoom-trans i room₁ _ app (put_room i room₁ app) app' (OnlyRoom-put_room i room₁ app)
            only,
      )

  -- The end of the transaction is a method that finds the room with its buffer full.
  close_transaction :
      (i : ℕ) (cs : List (RoomCommand V)) (f : RoomState V → Outcome (RoomState V))
      (app : AppState V) (room room' : RoomState V)
      → room_of i app ≡ ok room
      → usable room ≡ ok tt
      → room.tx_buffer ≡ none
      → f (holding room cs) ≡ ok room'
      → (app' : AppState V) × (transaction i cs (update_room i f) app ≡ ok app')
        × OnlyRoom i room' app app'
  unfolding transaction
  close_transaction i cs f app room room' h u t e =
      let (opened, run, only) = open_transaction i cs app room h u t in
      let here : room_of i opened ≡ ok (holding room cs) = ground (arith, only i, ==_refl i) in
      (
        put_room i room' opened,
        rw (run, update_room_at i f opened _ here, e),
        OnlyRoom-trans i _ room' app opened _ only (OnlyRoom-put_room i room' opened),
      )

  buffer_kept :
      (room : RoomState V) → room.tx_buffer ≡ none → record room { tx_buffer = none } ≡ room
  buffer_kept room t = ground arith

  -- In a usable room with no open transaction: beginning one, any sequence of SET and DEL
  -- requests, and ending it succeeds, and the room is then as if the requests' effects had been
  -- applied in order at that point; the other rooms are as before.
  pub transaction-commit :
      (i : ℕ) (cs : List (RoomCommand V)) (app : AppState V) (room : RoomState V)
      → room_of i app ≡ ok room
      → usable room ≡ ok tt
      → room.tx_buffer ≡ none
      → (app' : AppState V) × (transaction i cs (tx_end i) app ≡ ok app')
        × OnlyRoom i (drain room cs) app app'
  unfolding tx_end end_in_room usable
  transaction-commit i cs app room h u t =
      close_transaction i cs end_in_room app room (drain room cs) h u t
        (rw (buffer_kept room t) (ground arith))

  -- In a usable room with no open transaction: beginning one, any sequence of SET and DEL
  -- requests, and aborting it succeeds, and gives back the room that was there before; the other
  -- rooms are as before.
  pub transaction-abort :
      (i : ℕ) (cs : List (RoomCommand V)) (app : AppState V) (room : RoomState V)
      → room_of i app ≡ ok room
      → usable room ≡ ok tt
      → room.tx_buffer ≡ none
      → (app' : AppState V) × (transaction i cs (tx_abort i) app ≡ ok app')
        × OnlyRoom i room app app'
  unfolding tx_abort abort_in_room usable
  transaction-abort i cs app room h u t =
      close_transaction i cs abort_in_room app room room h u t
        (rw (buffer_kept room t) (ground arith))

  -- In a usable room with no open transaction: where a sequence of SET and DEL requests succeeds
  -- without a transaction, it succeeds in a transaction too, with the very same effect: after the
  -- end every room is what it would be without the transaction.
  pub transaction-direct :
      (i : ℕ) (cs : List (RoomCommand V)) (app direct : AppState V) (room : RoomState V)
      → room_of i app ≡ ok room
      → usable room ≡ ok tt
      → room.tx_buffer ≡ none
      → request_all i cs app ≡ ok direct
      → (app' : AppState V) × (transaction i cs (tx_end i) app ≡ ok app')
        × ((n : ℕ) → room_of n app' ≡ room_of n direct)
  transaction-direct i cs app direct room h u t run =
      let (app', committed, only) = transaction-commit i cs app room h u t in
      (app', committed, λ n. only n ∙ sym (request_all_direct i cs app room direct h t run n))

  -- In a usable room with no open transaction: one can be begun, any sequence of SET and DEL
  -- requests succeeds in it, and while it is open `get_fragment` returns in every room, for every
  -- bucket and key, what it returned before the transaction began.
  pub transaction-isolated :
      (i : ℕ) (cs : List (RoomCommand V)) (app : AppState V) (room : RoomState V)
      → room_of i app ≡ ok room
      → usable room ≡ ok tt
      → room.tx_buffer ≡ none
      → (app' : AppState V) × (transaction i cs (λ open_app. ok open_app) app ≡ ok app')
        × ((n b : ℕ) (k : String) → get_fragment n b k app' ≡ get_fragment n b k app)
  unfolding transaction get_fragment get_in_room usable
  transaction-isolated i cs app room h u t =
      let (opened, run, only) = open_transaction i cs app room h u t in
      (opened, rw run, λ n b k. ground (arith, only n, ==_iff i n))
