-- ===== src/State/Transactions/Requests.antt =====
-- A client's sequence of SET and DEL requests to one room, inside and outside a transaction.
use mathlib.Core.List.{append_assoc, append-nil}
use syncpond.Base.{
  ℕ, ◌≡◌, refl, sym, ◌∙◌, Option, none, some, List, [], ◌∷◌, ◌++◌, arith, ok, ◌>>=◌, >>=-eq-ok,
  if◌then◌else◌,
}
use syncpond.Base.Eq.{nat_eq, ◌==◌, ==_iff}
use syncpond.Extern.Json.{Json}
use syncpond.State.{
  RoomCommand, set, del, RoomState, AppState, Outcome, room_of, put_room, update_room,
}
use syncpond.State.Access.{
  room_of-put_room, room_of-put_room_self, update_room_at, update_room-eq-ok,
}
use syncpond.State.Members.{usable}
use syncpond.State.Fragments.{set_in_room, set_fragment, del_in_room, del_fragment}
use syncpond.State.Transactions.{apply_command, drain}

module _ {V : Type 0} where
  -- Only room `i` changed, and it is now `room`.
  abbrev pub OnlyRoom : ℕ → RoomState V → AppState V → AppState V → Type 0
  OnlyRoom i room app app' = (n : ℕ) → room_of n app' ≡ (if i == n then ok room else room_of n app)

  pub OnlyRoom-put_room :
      (i : ℕ) (room : RoomState V) (app : AppState V) → OnlyRoom i room app (put_room i room app)
  OnlyRoom-put_room i room app n = room_of-put_room i n room app

  pub OnlyRoom-trans :
      (i : ℕ) (r s : RoomState V) (a b c : AppState V)
      → OnlyRoom i r a b
      → OnlyRoom i s b c
      → OnlyRoom i s a c
  OnlyRoom-trans i r s a b c p q n = ground (arith, p n, q n)

module _ {V : Type 0} ⦃J : Json V⦄ where
  in_room : RoomCommand V → RoomState V → Outcome (RoomState V)
  in_room (set b k v) = set_in_room b k v
  in_room (del b k) = del_in_room b k

  unfoldable pub request : ℕ → RoomCommand V → AppState V → Outcome (AppState V)
  request i (set b k v) = set_fragment i b k v
  request i (del b k) = del_fragment i b k

  unfoldable pub request_all : ℕ → List (RoomCommand V) → AppState V → Outcome (AppState V)
  request_all i [] app = ok app
  request_all i (c ∷ cs) app = request i c app >>= request_all i cs

  request-update_room :
      (i : ℕ) (c : RoomCommand V) (app : AppState V)
      → request i c app ≡ update_room i (in_room c) app
  unfolding request in_room set_fragment del_fragment
  request-update_room i (set b k v) app = refl
  request-update_room i (del b k) app = refl

  pub usable_buffered :
      (room : RoomState V) (b : Option (List (RoomCommand V)))
      → usable room ≡ ok tt
      → usable (record room { tx_buffer = b }) ≡ ok tt
  unfolding usable
  usable_buffered room b u = u

  in_room_buffered :
      (c : RoomCommand V) (room : RoomState V) (buffer : List (RoomCommand V))
      → usable room ≡ ok tt
      → room.tx_buffer ≡ some buffer
      → in_room c room ≡ ok (record room { tx_buffer = some (buffer ++ c ∷ []) })
  unfolding in_room set_in_room del_in_room
  in_room_buffered (set b k v) room buffer u t = rw (u, t)
  in_room_buffered (del b k) room buffer u t = rw (u, t)

  -- Inside a transaction every request succeeds, and only lengthens the buffer.
  pub request_all_buffered :
      (i : ℕ) (cs : List (RoomCommand V)) (app : AppState V) (room : RoomState V)
      (buffer : List (RoomCommand V))
      → room_of i app ≡ ok room
      → usable room ≡ ok tt
      → room.tx_buffer ≡ some buffer
      → (app' : AppState V) × (request_all i cs app ≡ ok app')
        × OnlyRoom i (record room { tx_buffer = some (buffer ++ cs) }) app app'
  unfolding request_all
  request_all_buffered i [] app room buffer h u t =
      let same : record room { tx_buffer = some (buffer ++ []) } ≡ room =
        ground (arith, append-nil buffer) in
      (app, refl, λ n. rw same (ground (arith, ==_iff i n)))
  request_all_buffered i (c ∷ cs) app room buffer h u t =
      let room₁ : RoomState V = record room { tx_buffer = some (buffer ++ c ∷ []) } in
      let (app', run, only) =
        request_all_buffered i cs (put_room i room₁ app) room₁ (buffer ++ c ∷ [])
          (room_of-put_room_self i room₁ app) (usable_buffered room _ u) refl in
      (
        app',
        rw
            (
              request-update_room i c app,
              update_room_at i (in_room c) app room h,
              in_room_buffered c room buffer u t,
            )
            run,
        rw (append_assoc buffer (c ∷ []) cs) at (
            OnlyRoom-trans i room₁ _ app (put_room i room₁ app) app' (OnlyRoom-put_room i room₁ app)
              only),
      )

  pub tx_buffer-apply_command :
      (c : RoomCommand V) (room : RoomState V) → (apply_command room c).tx_buffer ≡ room.tx_buffer
  unfolding apply_command
  tx_buffer-apply_command (set b k v) room = refl
  tx_buffer-apply_command (del b k) room = refl

  in_room_direct :
      (c : RoomCommand V) (room room' : RoomState V)
      → room.tx_buffer ≡ none
      → in_room c room ≡ ok room'
      → room' ≡ apply_command room c
  unfolding in_room set_in_room del_in_room apply_command
  in_room_direct (set b k v) room room' t h = ground arith
  in_room_direct (del b k) room room' t h = ground arith

  -- Outside a transaction requests that all succeed have the effect of the commands in order.
  pub request_all_direct :
      (i : ℕ) (cs : List (RoomCommand V)) (app : AppState V) (room : RoomState V)
      (app' : AppState V)
      → room_of i app ≡ ok room
      → room.tx_buffer ≡ none
      → request_all i cs app ≡ ok app'
      → OnlyRoom i (drain room cs) app app'
  unfolding request_all drain
  request_all_direct i [] app room app' h t run = λ n. ground (arith, ==_iff i n)
  request_all_direct i (c ∷ cs) app room app' h t run =
      let (app₁, first, rest) = >>=-eq-ok (request i c app) (request_all i cs) run in
      let (r, room₁, at_i, changed, same) =
        update_room-eq-ok i (in_room c) app app₁ (sym (request-update_room i c app) ∙ first) in
      let r_is : r ≡ room = cc in
      let applied : room₁ ≡ apply_command room c = in_room_direct c room room₁ t (cc) in
      let here : room_of i app₁ ≡ ok (apply_command room c) =
        rw (same, applied) (room_of-put_room_self i _ app) in
      let only : OnlyRoom i (apply_command room c) app app₁ =
        rw (same, applied) (OnlyRoom-put_room i _ app) in
      OnlyRoom-trans i (apply_command room c) _ app app₁ app' only (
        request_all_direct i cs app₁ (apply_command room c) app' here
          (tx_buffer-apply_command c room ∙ t) rest)
