-- ===== src/Connection/Opening.antt =====
-- What the hub holds once a client was let in.
use syncpond.Base.{
  ℕ, ◌<◌, ◌≤◌, Bool, List, length, Option-cases, ◌≡◌, refl, true, false, none, some, [], ◌∷◌, arith,
  Bool-cases, inl, inr, u64_max, if◌then◌else◌,
}
use syncpond.Base.Eq.{nat_eq, ◌==◌, ==_iff, ==_refl}
use syncpond.Base.HashMap.{get, insert, contains_key, get-insert, get-insert_self}
use syncpond.Base.HashSet.{HashSet, contains}
use syncpond.Extern.Wire.{auth_ok, auth_error}
use syncpond.Hub.{
  WsHub, ClientInfo, clients_at, any_of, is_full, subscribe, allocate_connection_id, add_client,
  get_client_room_id,
}
use syncpond.Hub.HubInvariant.{HubInv, is_subscribed, any_of-false}
use syncpond.Hub.Sessions.{register, register-HubInv, fresh_id}
use syncpond.Protocol.{client_connected}
use syncpond.Connection.{admitted, finish_handshake, Opened}

-- One of the buckets has 200 connections or more.
abbrev pub HasFull : {S : Type 0} → HashSet ℕ → WsHub S → Type 0
HasFull allowed hub =
    (b : ℕ) × (contains b allowed ≡ true) × (200 ≤ length (clients_at b hub.buckets))

-- Each of the buckets has fewer than 200 connections.
abbrev pub HasSpace : {S : Type 0} → HashSet ℕ → WsHub S → Type 0
HasSpace allowed hub = (b : ℕ) → contains b allowed ≡ true → length (clients_at b hub.buckets) < 200

any_of-eq_true :
    (p : ℕ → Bool) (bs : List ℕ)
    → any_of p bs ≡ true
    → (b : ℕ) × (contains b bs ≡ true) × (p b ≡ true)
unfolding any_of contains
any_of-eq_true p [] h = cc
any_of-eq_true p (x ∷ bs) h = elim (Bool-cases (p x)) [
  | inl this ↦ (x, ground (arith, ==_refl x), this)
  | inr other ↦ let (b, among, is_p) = any_of-eq_true p bs (ground arith) in (b, ground arith, is_p)
]

-- What an admitted client gets: nothing, with an error, when one of its buckets is full; else a
-- new id, its room, and subscriptions to its buckets.
abbrev pub IsOpened : {S : Type 0} → Bool → ℕ → HashSet ℕ → WsHub S → Opened S → Type 0
IsOpened told room allowed hub out = elim out.conn_id [
  | none ↦
      HasFull allowed hub
      × (out.hub.connections ≡ hub.connections)
      × (out.hub.buckets ≡ hub.buckets)
      × (out.event ≡ none)
  | some c ↦
      HasSpace allowed hub
      × (contains_key c hub.connections ≡ false)
      × (get_client_room_id c out.hub ≡ some room)
      × (out.event ≡ (if told then some (client_connected c allowed) else none))
      × ((b : ℕ) → is_subscribed c b out.hub ≡ contains b allowed)
      × ((j : ℕ)
          → get j out.hub.connections
            ≡ (if c == j then get c out.hub.connections else get j hub.connections))
]

module _ {S : Type 0} where
  HasFull-any_of :
      (c : ℕ) (allowed : HashSet ℕ) (hub : WsHub S)
      → any_of (is_full c hub) allowed ≡ true
      → HasFull allowed hub
  unfolding is_full clients_at
  HasFull-any_of c allowed hub h =
      let (b, among, full) = any_of-eq_true (is_full c hub) allowed h in
      (
        b,
        among,
        elim (Option-cases (get b hub.buckets)) [
          | inl none_at ↦ ground arith
          | inr (set, at_b) ↦ ground arith
        ],
      )

  HasSpace-any_of :
      (c : ℕ) (allowed : HashSet ℕ) (hub : WsHub S)
      → HubInv hub
      → contains_key c hub.connections ≡ false
      → any_of (is_full c hub) allowed ≡ false
      → HasSpace allowed hub
  unfolding is_full clients_at contains_key
  HasSpace-any_of c allowed hub inv unknown h = λ b among.
      let free = any_of-false (is_full c hub) b allowed h among in
      let apart = inv.index c b in
      elim (Option-cases (get b hub.buckets)) [
        | inl none_at ↦ ground arith
        | inr (set, at_b) ↦ ground (arith, apart)
      ]

  turned_away : ℕ → HashSet ℕ → WsHub S → Opened S
  unfolding allocate_connection_id
  turned_away room allowed hub = record {
    frames = auth_ok 0 ∷ auth_error "client_add_failed" "bucket_client_limit_exceeded" ∷ [];
    event = none;
    conn_id = none;
    hub = (allocate_connection_id hub).1;
  }

  let_in : Bool → ClientInfo S → WsHub S → Opened S
  unfolding allocate_connection_id insert subscribe
  let_in told client hub = record {
    frames = auth_ok 0 ∷ [];
    event = if told then some (client_connected hub.next_conn_id client.buckets) else none;
    conn_id = some hub.next_conn_id;
    hub = record ((allocate_connection_id hub).1) {
      connections = insert hub.next_conn_id client hub.connections;
      buckets = subscribe hub.next_conn_id client.buckets hub.buckets;
    };
  }

  finish_handshake-admitted :
      (told : Bool) (sender : S) (room : ℕ) (allowed : HashSet ℕ) (hub : WsHub S)
      → finish_handshake true told sender (admitted room allowed) hub ≡ (
          if any_of (is_full hub.next_conn_id hub) allowed
          then turned_away room allowed hub
          else let_in told (record { room_id = room; buckets = allowed; sender = sender }) hub)
  unfolding finish_handshake register allocate_connection_id add_client turned_away let_in is_full
  finish_handshake-admitted told sender room allowed hub = ground arith

  let_in-IsOpened :
      (told : Bool) (client : ClientInfo S) (hub : WsHub S)
      → contains_key hub.next_conn_id hub.connections ≡ false
      → HasSpace client.buckets hub
      → IsOpened told client.room_id client.buckets hub (let_in told client hub)
  unfolding let_in get_client_room_id allocate_connection_id
  let_in-IsOpened told client hub unknown free =
      let c = hub.next_conn_id in
      (
        free,
        unknown,
        ground (arith, get-insert_self c client hub.connections),
        refl,
        λ b. ground (arith, get-insert_self c client hub.connections),
        λ j. ground (
          arith,
          get-insert_self c client hub.connections,
          get-insert c j client hub.connections,
          ==_iff c j,
        ),
      )

  turned_away-IsOpened :
      (told : Bool) (room : ℕ) (allowed : HashSet ℕ) (hub : WsHub S)
      → HasFull allowed hub
      → IsOpened told room allowed hub (turned_away room allowed hub)
  unfolding turned_away allocate_connection_id
  turned_away-IsOpened told room allowed hub full = (full, refl, refl, refl)

  registered :
      (told : Bool) (sender : S) (room : ℕ) (allowed : HashSet ℕ) (hub : WsHub S)
      → HubInv hub
      → contains_key hub.next_conn_id hub.connections ≡ false
      → IsOpened told room allowed hub
          (finish_handshake true told sender (admitted room allowed) hub)
  registered told sender room allowed hub inv unknown =
      let client : ClientInfo S = record { room_id = room; buckets = allowed; sender = sender } in
      rw (finish_handshake-admitted told sender room allowed hub)
        (elim (Bool-cases (any_of (is_full hub.next_conn_id hub) allowed)) [
          | inl full ↦ rw full (
              turned_away-IsOpened told room allowed hub
                (HasFull-any_of hub.next_conn_id allowed hub full))
          | inr free ↦ rw free (
              let_in-IsOpened told client hub unknown
                (HasSpace-any_of hub.next_conn_id allowed hub inv unknown free))
        ])

  pub finish_handshake-IsOpened :
      (told : Bool) (sender : S) (room : ℕ) (allowed : HashSet ℕ) (hub : WsHub S)
      → hub.next_conn_id < u64_max
      → HubInv hub
      → IsOpened told room allowed hub
          (finish_handshake true told sender (admitted room allowed) hub)
        × HubInv ((finish_handshake true told sender (admitted room allowed) hub).hub)
  unfolding finish_handshake
  finish_handshake-IsOpened told sender room allowed hub bound h = (
    registered told sender room allowed hub h (fresh_id hub.next_conn_id hub h.fresh),
    ground (arith, register-HubInv room allowed sender hub bound h),
  )
