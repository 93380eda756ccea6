-- ===== src/Hub/HubInvariant.antt =====
-- What the hub keeps true: its two indexes agree, and no bucket has too many connections.
use syncpond.Base.{
  ℕ, ◌≤◌, ◌<◌, ◌≡◌, refl, Bool, true, false, none, some, List, [], ◌∷◌, arith, length, Option-cases,
  Bool-cases, inl, inr, u64_max,
}
use syncpond.Base.Eq.{nat_eq, ◌==◌, ==_iff}
use syncpond.Base.HashMap.{get, insert, remove, contains_key, get-insert, get-remove}
use syncpond.Base.HashMap.Unique.{Below, Below-insert, Below-remove}
use syncpond.Base.HashSet
use syncpond.Base.HashSet.{HashSet, contains, contains-insert, contains-remove}
use syncpond.Base.HashSet.Distinct.{
  IsDistinct, insert-IsDistinct, remove-IsDistinct, length-insert, length-remove,
}
use syncpond.Hub.{
  WsHub, ClientInfo, clients_at, subscribe, unsubscribe, any_of, is_full, add_client, remove_client,
  max_ws_clients_per_bucket, new,
}
use syncpond.Hub.Subscriptions.{clients_at-subscribe, clients_at-unsubscribe}
use syncpond.Hub.Kept.{IsKept, subscribe-IsKept, unsubscribe-IsKept}

pub any_of-false :
    (p : ℕ → Bool) (b : ℕ) (bs : List ℕ) → any_of p bs ≡ false → contains b bs ≡ true → p b ≡ false
unfolding any_of contains
any_of-false p b [] h c = cc
any_of-false p b (x ∷ bs) h c = elim (Bool-cases (x == b)) [
  | inl e ↦ let same : x ≡ b = ground arith in ground (arith, same)
  | inr e ↦ ground (arith, any_of-false p b bs)
]

module _ {S : Type 0} where
  -- The connection `c` subscribes to the bucket `b`.
  abbrev pub is_subscribed : ℕ → ℕ → WsHub S → Bool
  is_subscribed c b hub = elim (get c hub.connections) [
    | none ↦ false
    | some client ↦ contains b client.buckets
  ]

  -- The two indexes agree; a bucket is listed exactly when it has a connection, has each once and
  -- at most 200; and every connection was given an id by `allocate_connection_id`.
  pub record HubInv (hub : WsHub S) : Type 0 where
    pub index : (c b : ℕ) → contains c (clients_at b hub.buckets) ≡ is_subscribed c b hub
    pub kept : IsKept hub.buckets
    pub limit : (b : ℕ) → length (clients_at b hub.buckets) ≤ max_ws_clients_per_bucket
    pub distinct : (b : ℕ) → IsDistinct (clients_at b hub.buckets)
    pub fresh : Below hub.next_conn_id hub.connections
    pub word : hub.next_conn_id ≤ u64_max

  pub new-HubInv : HubInv new
  unfolding new clients_at contains get
  new-HubInv = record {
    index = λ c b. refl;
    kept = λ b. refl;
    limit = λ b. ground arith;
    distinct = λ b. tt;
    fresh = tt;
    word = ground arith;
  }

  limit-one :
      (c b : ℕ) (hub : WsHub S)
      → is_full c hub b ≡ false
      → length (clients_at b hub.buckets) ≤ max_ws_clients_per_bucket
      → length (HashSet.insert c (clients_at b hub.buckets)) ≤ max_ws_clients_per_bucket
  unfolding is_full clients_at
  limit-one c b hub free h = elim (Option-cases (get b hub.buckets)) [
    | inl none_at ↦ ground (arith, length-insert c [])
    | inr (set, at_b) ↦ ground (arith, length-insert c set)
  ]

  limit-add :
      (c : ℕ) (bs : List ℕ) (hub : WsHub S) (b : ℕ)
      → any_of (is_full c hub) bs ≡ false
      → length (clients_at b hub.buckets) ≤ max_ws_clients_per_bucket
      → length (clients_at b (subscribe c bs hub.buckets)) ≤ max_ws_clients_per_bucket
  unfolding is_full
  limit-add c bs hub b room h =
      let free = any_of-false (is_full c hub) b bs room in
      rw (clients_at-subscribe c bs b hub.buckets) (elim (Bool-cases (contains b bs)) [
        | inl among ↦ rw among (limit-one c b hub (free among) h)
        | inr apart ↦ rw apart h
      ])

  -- The hub once the client is let in.
  admitted : ℕ → ClientInfo S → WsHub S → WsHub S
  unfolding insert subscribe
  admitted c client hub = record hub {
    connections = insert c client hub.connections;
    buckets = subscribe c client.buckets hub.buckets;
  }

  admitted-index :
      (c : ℕ) (client : ClientInfo S) (hub : WsHub S) (j b : ℕ)
      → contains_key c hub.connections ≡ false
      → HubInv hub
      → contains j (clients_at b (subscribe c client.buckets hub.buckets))
        ≡ is_subscribed j b (admitted c client hub)
  unfolding admitted contains_key
  admitted-index c client hub j b unknown h = ground (
    arith,
    clients_at-subscribe c client.buckets b hub.buckets,
    contains-insert c j (clients_at b hub.buckets),
    get-insert c j client hub.connections,
    h.index j b,
    ==_iff c j,
  )

  admitted-HubInv :
      (c : ℕ) (client : ClientInfo S) (hub : WsHub S)
      → contains_key c hub.connections ≡ false
      → c < hub.next_conn_id
      → any_of (is_full c hub) client.buckets ≡ false
      → HubInv hub
      → HubInv (admitted c client hub)
  unfolding admitted
  admitted-HubInv c client hub unknown given free h = record {
    index = λ j b. admitted-index c client hub j b unknown h;
    kept = subscribe-IsKept c client.buckets hub.buckets h.kept;
    limit = λ b. limit-add c client.buckets hub b free (h.limit b);
    distinct = λ b. ground (
      arith,
      clients_at-subscribe c client.buckets b hub.buckets,
      h.distinct b,
      insert-IsDistinct c (clients_at b hub.buckets),
    );
    fresh = Below-insert hub.next_conn_id c client hub.connections given h.fresh;
    word = h.word;
  }

  pub add_client-HubInv :
      (c room_id : ℕ) (allowed : HashSet ℕ) (sender : S) (hub : WsHub S)
      → contains_key c hub.connections ≡ false
      → c < hub.next_conn_id
      → HubInv hub
      → HubInv ((add_client c room_id allowed sender hub).1)
  unfolding add_client admitted
  add_client-HubInv c room_id allowed sender hub unknown given h =
      elim (Bool-cases (any_of (is_full c hub) allowed)) [
        | inl full ↦ rw full h
        | inr free ↦ rw free (
            admitted-HubInv c (record { room_id = room_id; buckets = allowed; sender = sender }) hub
              unknown given free h)
      ]

  removed_index :
      (c : ℕ) (client : ClientInfo S) (hub : WsHub S) (j b : ℕ)
      → get c hub.connections ≡ some client
      → HubInv hub
      → contains j (clients_at b (unsubscribe c client.buckets hub.buckets))
        ≡ is_subscribed j b (record hub {
          connections = remove c hub.connections;
          buckets = unsubscribe c client.buckets hub.buckets;
        })
  removed_index c client hub j b at_c h = ground (
    arith,
    clients_at-unsubscribe c client.buckets b hub.buckets,
    contains-remove c j (clients_at b hub.buckets),
    get-remove c j hub.connections,
    h.index j b,
    ==_iff c j,
  )

  pub remove_client-HubInv : (c : ℕ) (hub : WsHub S) → HubInv hub → HubInv (remove_client c hub)
  unfolding remove_client
  remove_client-HubInv c hub h = elim (Option-cases (get c hub.connections)) [
    | inl none_at ↦ rw (none_at, remove_client) h
    | inr (client, at_c) ↦
        rw (at_c, remove_client)
          (record {
            index = λ j b. removed_index c client hub j b at_c h;
            kept = unsubscribe-IsKept c client.buckets hub.buckets h.kept;
            limit = λ b. ground (
              arith,
              clients_at-unsubscribe c client.buckets b hub.buckets,
              h.limit b,
              length-remove c (clients_at b hub.buckets),
            );
            distinct = λ b. ground (
              arith,
              clients_at-unsubscribe c client.buckets b hub.buckets,
              h.distinct b,
              remove-IsDistinct c (clients_at b hub.buckets),
            );
            fresh = Below-remove hub.next_conn_id c hub.connections h.fresh;
            word = h.word;
          })
  ]
