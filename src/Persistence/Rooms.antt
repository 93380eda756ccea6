-- ===== src/Persistence/Rooms.antt =====
-- `RoomPersistence`, server/crates/sp-kernel/src/persistance/mod.rs: the buckets, members and
-- fragments of one room in its store.
use Prim.Native.String
use syncpond.Base.{
  ℕ, String, Option, none, some, List, [], ◌∷◌, Result, ok, err, if◌then◌else◌, unwrap_or, ok_or,
}
use syncpond.Base.Eq.{nat_eq, string_eq}
use syncpond.Base.HashMap.{HashMap, get, insert}
use syncpond.Base.HashSet
use syncpond.Base.HashSet.{HashSet, collect}
use syncpond.Base.Sort.{sort_text}
use syncpond.Base.Text.{trim, is_empty_str}
use syncpond.Base.Text.Decimal.{parse_u64}
use syncpond.Extern.Json.{Json, Bytes}
use syncpond.Extern.Rocks.{Rocks, Serde}
use syncpond.Persistence.{fragment_key, member_list_key, strip_prefix, split_at_colon}

-- The room's store, and the cache that the rooms share.
pub record RoomPersistence (D C : Type 0) : Type 0 where
  pub db : D
  pub bucket_cache : C

-- What a method returns, and what it leaves.
abbrev pub Action : Type 0 → Type 0 → Type 0 → Type 0
Action D C A = RoomPersistence D C → Result A String × RoomPersistence D C

module _ {D C : Type 0} where
  infixl 5 ◌>>=◌ ◌>>◌
  abbrev pub ◌>>=◌ : {A B : Type 0} → Action D C A → (A → Action D C B) → Action D C B
  (m >>= f) s = let r = m s in elim r.0 [ ok a ↦ f a r.1 | err e ↦ (err e, r.1) ]

  abbrev pub ◌>>◌ : {B : Type 0} → Action D C (Unit {0}) → Action D C B → Action D C B
  m >> k = m >>= λ _. k

  abbrev pub pure : {A : Type 0} → A → Action D C A
  pure a s = (ok a, s)

  -- `.map_err(|e| format!("…: {}", e))?`
  abbrev pub or_fail : {A : Type 0} → String → Result A String → Action D C A
  or_fail what (ok a) s = (ok a, s)
  or_fail what (err e) s = (err (String.◌++◌ what e), s)

module _ {D C : Type 0} ⦃R : Rocks D⦄ where
  unfoldable pub read : String → Action D C (Option Bytes)
  read key s = or_fail "rocksdb get failed: " (R.db_get key s.db) s

  unfoldable pub put : String → Bytes → Action D C (Unit {0})
  put key bytes s =
      let r = R.db_put key bytes s.db in or_fail "rocksdb put failed: " r.0 (record s { db = r.1 })

  unfoldable pub delete : String → Action D C (Unit {0})
  delete key s =
      let r = R.db_delete key s.db in or_fail "rocksdb delete failed: " r.0 (record s { db = r.1 })

module _ {D C V : Type 0} ⦃R : Rocks D⦄ ⦃J : Json V⦄ where
  -- The serializer's own error text, after `serialize error: `, is left out.
  unfoldable pub persist_fragment : (container key : String) → Option V → Action D C (Unit {0})
  unfolding put delete fragment_key
  persist_fragment container key none = delete (fragment_key container key)
  persist_fragment container key (some v) =
      or_fail "serialize error: " (ok_or (J.to_vec v) "") >>= put (fragment_key container key)

module _ {V : Type 0} ⦃J : Json V⦄ where
  -- The fragment that an entry of the store holds, if it holds one: its bucket, key and value.
  unfoldable pub fragment_of : Option String → Bytes → Option (ℕ × String × V)
  unfolding split_at_colon parse_u64
  fragment_of none v = none
  fragment_of (some k) v = elim (split_at_colon k) [
    | none ↦ none
    | some (prefix, key) ↦ elim (parse_u64 prefix) [
      | none ↦ none
      | some bucket_id ↦ elim (J.from_slice v) [
        | none ↦ none
        | some value ↦ some (bucket_id, key, value)
      ]
    ]
  ]

  -- `out.entry(bucket_id).or_default().insert(frag_key, val)`
  unfoldable pub file_fragment :
      Option (ℕ × String × V) → HashMap ℕ (HashMap String V) → HashMap ℕ (HashMap String V)
  unfolding get insert
  file_fragment none out = out
  file_fragment (some (b, key, value)) out =
      insert b (insert key value (unwrap_or (get b out) [])) out

  unfoldable pub collect_fragments :
      List (Result (Option String × Bytes) String)
      → HashMap ℕ (HashMap String V)
      → Result (HashMap ℕ (HashMap String V)) String
  unfolding fragment_of file_fragment
  collect_fragments [] out = ok out
  collect_fragments (err e ∷ items) out = err (String.◌++◌ "rocksdb iterator error: " e)
  collect_fragments (ok (k, v) ∷ items) out =
      collect_fragments items (file_fragment (fragment_of k v) out)

  unfoldable pub load_all_fragments :
      {D C : Type 0} ⦃R : Rocks D⦄ → Action D C (HashMap ℕ (HashMap String V))
  unfolding collect_fragments
  load_all_fragments ⦃R = R⦄ s = (collect_fragments (R.iterator s.db) [], s)

module _ {D C : Type 0} ⦃R : Rocks D⦄ ⦃M : Serde (List String)⦄ (room_id : ℕ) where
  unfoldable pub decode_members : Option Bytes → Action D C (HashSet String)
  unfolding collect
  decode_members none = pure []
  decode_members (some v) =
      or_fail "deserialize error: " (M.deserialize v) >>= λ list. pure (collect list)

  unfoldable pub load_members : Action D C (HashSet String)
  unfolding read member_list_key decode_members
  load_members = read (member_list_key room_id) >>= decode_members

  unfoldable pub update_member_list : HashSet String → Action D C (Unit {0})
  unfolding put member_list_key sort_text
  update_member_list members = do
    bytes ← or_fail "serialize error: " (M.serialize (sort_text members))
    put (member_list_key room_id) bytes

  unfoldable pub persist_member : String → Action D C (Unit {0})
  unfolding trim is_empty_str load_members update_member_list HashSet.insert
  persist_member member =
      if is_empty_str (trim member)
      then pure tt
      else load_members >>= λ members. update_member_list (HashSet.insert (trim member) members)

  unfoldable pub remove_member : String → Action D C (Unit {0})
  unfolding load_members update_member_list HashSet.remove
  remove_member member = do
    members ← load_members
    update_member_list (HashSet.remove member members)

-- The id in the key of a bucket record.
unfoldable pub bucket_id_of : Option String → Option ℕ
unfolding strip_prefix parse_u64
bucket_id_of none = none
bucket_id_of (some k) = elim (strip_prefix "bucket:" k) [ none ↦ none | some rest ↦ parse_u64 rest ]

unfoldable pub bucket_ids : List (Result (Option String × Bytes) String) → List ℕ
unfolding bucket_id_of
bucket_ids [] = []
bucket_ids (err e ∷ items) = bucket_ids items
bucket_ids (ok (k, v) ∷ items) =
    let rest = bucket_ids items in elim (bucket_id_of k) [ none ↦ rest | some id ↦ id ∷ rest ]
