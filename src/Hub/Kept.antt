-- ===== src/Hub/Kept.antt =====
-- The buckets of the hub that have no connection are not listed.
use syncpond.Base.{
  ℕ, ◌≡◌, false, not, List, [], ◌∷◌, arith, is_some, is_empty, Option-cases, inl, inr,
}
use syncpond.Base.Eq.{nat_eq}
use syncpond.Base.HashMap.{HashMap, get, insert, get-insert, get-remove}
use syncpond.Base.HashSet
use syncpond.Base.HashSet.{HashSet, contains, contains-insert, contains-remove}
use syncpond.Base.HashSet.Distinct.{is_empty-insert}
use syncpond.Hub.{clients_at, subscribe, leave, unsubscribe}

-- A bucket is listed exactly when it has a connection.
abbrev pub IsKept : HashMap ℕ (HashSet ℕ) → Type 0
IsKept m = (b : ℕ) → is_some (get b m) ≡ not (is_empty (clients_at b m))

pub insert-IsKept :
    (b : ℕ) (s : HashSet ℕ) (m : HashMap ℕ (HashSet ℕ))
    → is_empty s ≡ false
    → IsKept m
    → IsKept (insert b s m)
unfolding clients_at
insert-IsKept b s m h k j = ground (arith, get-insert b j s m, k j)

pub subscribe-IsKept :
    (c : ℕ) (bs : List ℕ) (m : HashMap ℕ (HashSet ℕ)) → IsKept m → IsKept (subscribe c bs m)
unfolding subscribe
subscribe-IsKept c [] m k = k
subscribe-IsKept c (b ∷ bs) m k =
    subscribe-IsKept c bs (insert b (HashSet.insert c (clients_at b m)) m)
      (insert-IsKept b (HashSet.insert c (clients_at b m)) m (is_empty-insert c (clients_at b m)) k)

pub leave-IsKept : (c b : ℕ) (m : HashMap ℕ (HashSet ℕ)) → IsKept m → IsKept (leave c b m)
unfolding leave clients_at
leave-IsKept c b m k j = elim (Option-cases (get b m)) [
  | inl none_at ↦ ground (arith, k j)
  | inr (set, at_b) ↦ ground (arith, k j, get-remove b j m, get-insert b j (HashSet.remove c set) m)
]

pub unsubscribe-IsKept :
    (c : ℕ) (bs : List ℕ) (m : HashMap ℕ (HashSet ℕ)) → IsKept m → IsKept (unsubscribe c bs m)
unfolding unsubscribe
unsubscribe-IsKept c [] m k = k
unsubscribe-IsKept c (b ∷ bs) m k = unsubscribe-IsKept c bs (leave c b m) (leave-IsKept c b m k)
