-- ===== src/Hub/Subscriptions.antt =====
-- What the loops of `add_client` and `remove_client` do to the index of connections by bucket.
use syncpond.Base.{
  ℕ, ◌≡◌, refl, true, List, [], ◌∷◌, arith, is_empty, if◌then◌else◌, Option-cases, Bool-cases, inl,
  inr,
}
use syncpond.Base.Eq.{nat_eq, ◌==◌, ==_iff}
use syncpond.Base.HashMap.{HashMap, get, insert, get-insert, get-remove}
use syncpond.Base.HashSet
use syncpond.Base.HashSet.{HashSet, contains, contains-insert}
use syncpond.Hub.{clients_at, subscribe, leave, unsubscribe}

insert-insert : (c : ℕ) (s : HashSet ℕ) → HashSet.insert c (HashSet.insert c s) ≡ HashSet.insert c s
unfolding HashSet.insert
insert-insert c s = ground (arith, contains-insert c c s, ==_iff c c)

remove-remove : (c : ℕ) (s : HashSet ℕ) → HashSet.remove c (HashSet.remove c s) ≡ HashSet.remove c s
unfolding HashSet.remove
remove-remove c [] = refl
remove-remove c (x ∷ s) = ground (arith, remove-remove c s)

clients_at-insert :
    (b j : ℕ) (s : HashSet ℕ) (m : HashMap ℕ (HashSet ℕ))
    → clients_at j (insert b s m) ≡ (if b == j then s else clients_at j m)
unfolding clients_at
clients_at-insert b j s m = ground (arith, get-insert b j s m)

-- The connection is in the buckets it subscribed to, besides where it was; nothing else changes.
pub clients_at-subscribe :
    (c : ℕ) (bs : List ℕ) (j : ℕ) (m : HashMap ℕ (HashSet ℕ))
    → clients_at j (subscribe c bs m)
      ≡ (if contains j bs then HashSet.insert c (clients_at j m) else clients_at j m)
unfolding subscribe contains
clients_at-subscribe c [] j m = refl
clients_at-subscribe c (b ∷ bs) j m = ground (
  arith,
  clients_at-subscribe c bs j (insert b (HashSet.insert c (clients_at b m)) m),
  clients_at-insert b j (HashSet.insert c (clients_at b m)) m,
  ==_iff b j,
  insert-insert c (clients_at j m),
)

empty-is_empty {ℓ} : {A : Type ℓ} (l : List A) → is_empty l ≡ true → l ≡ []
empty-is_empty [] h = refl
empty-is_empty (x ∷ l) h = cc

clients_at-leave :
    (c b j : ℕ) (m : HashMap ℕ (HashSet ℕ))
    → clients_at j (leave c b m)
      ≡ (if b == j then HashSet.remove c (clients_at j m) else clients_at j m)
unfolding leave clients_at HashSet.remove
clients_at-leave c b j m = elim (Option-cases (get b m)) [
  | inl none_at ↦ ground (arith, ==_iff b j)
  | inr (set, at_b) ↦ elim (Bool-cases (is_empty (HashSet.remove c set))) [
    | inl e ↦ ground (arith, get-remove b j m, ==_iff b j, empty-is_empty (HashSet.remove c set))
    | inr e ↦ ground (arith, get-insert b j (HashSet.remove c set) m, ==_iff b j)
  ]
]

pub clients_at-unsubscribe :
    (c : ℕ) (bs : List ℕ) (j : ℕ) (m : HashMap ℕ (HashSet ℕ))
    → clients_at j (unsubscribe c bs m)
      ≡ (if contains j bs then HashSet.remove c (clients_at j m) else clients_at j m)
unfolding unsubscribe contains
clients_at-unsubscribe c [] j m = refl
clients_at-unsubscribe c (b ∷ bs) j m = ground (
  arith,
  clients_at-unsubscribe c bs j (leave c b m),
  clients_at-leave c b j m,
  remove-remove c (clients_at j m),
)
