-- ===== src/Persistence.antt =====
-- server/crates/sp-kernel/src/persistance/mod.rs: the store of each room, with a cache of the
-- bucket records. Its parts that only reach for the file system are arguments.
pub mod Directory
pub mod Keys
pub mod Members
pub mod Rooms
pub mod Scan
pub mod Reads
pub mod Records
pub mod Cached
pub mod Coherent
pub mod Buckets
use Prim.Native.Char.{Char, code}
use Prim.Native.String
use Prim.Native.String.{String, [], ◌∷◌}
use syncpond.Base.{
  ℕ, Bool, true, false, ◌&&◌, Option, none, some, List, Result, ok, err, eqb, if◌then◌else◌,
}
use syncpond.Base.Eq.{nat_eq, string_eq}
use syncpond.Base.HashMap.{HashMap, get, insert, contains_key, keys}
use syncpond.Base.Sort.{sort_unstable}
use syncpond.Base.Text.Decimal.{to_string}
use syncpond.Extern.Json.{Bytes}
use syncpond.Extern.Rocks.{Rocks}

pub record BucketRecord : Type 0 where
  pub id : ℕ
  pub label : Option String
  pub flags : ℕ

abbrev pub BucketRecords : Type 0
BucketRecords = HashMap ℕ BucketRecord

-- The opened stores, and the cache; `D` and `C` are their types.
pub record PersistenceManager (D C : Type 0) : Type 0 where
  pub dbs : HashMap ℕ D
  pub bucket_cache : C

-- `format!("{}:{}", container, key)`
unfoldable pub fragment_key : (container key : String) → String
fragment_key container key = String.◌++◌ container (String.◌++◌ ":" key)

-- `format!("{}{}", BUCKET_PREFIX, bucket_id)`
unfoldable pub bucket_key : ℕ → String
unfolding to_string
bucket_key bucket_id = String.◌++◌ "bucket:" (to_string bucket_id)

unfoldable pub bucket_list_key : (room_id : ℕ) → String
unfolding to_string
bucket_list_key room_id = String.◌++◌ "/room/" (String.◌++◌ (to_string room_id) "/buckets")

unfoldable pub member_list_key : (room_id : ℕ) → String
unfolding to_string
member_list_key room_id = String.◌++◌ "/room/" (String.◌++◌ (to_string room_id) "/members")

-- `str::strip_prefix`
unfoldable pub strip_prefix : (prefix s : String) → Option String
strip_prefix [] s = some s
strip_prefix (p ∷ ps) [] = none
strip_prefix (p ∷ ps) (c ∷ s) =
    let rest = strip_prefix ps s in if eqb (code p) (code c) then rest else none

-- `s.find(':')`, with the text before the colon and the text after it
unfoldable pub split_at_colon : String → Option (String × String)
split_at_colon [] = none
split_at_colon (c ∷ s) =
    let later = split_at_colon s in
    if eqb (code c) 58
    then some ([], s)
    else (elim later [ none ↦ none | some p ↦ some (c ∷ p.0, p.1) ])

module _ {D C : Type 0} where
  -- `open_db room_id` makes the room's directory and opens the store in it.
  unfoldable pub open_room_db :
      (open_db : ℕ → Result D String) (room_id : ℕ)
      → PersistenceManager D C
      → Result (Unit {0}) String × PersistenceManager D C
  unfolding contains_key insert
  open_room_db open_db room_id pm =
      if contains_key room_id pm.dbs then (ok tt, pm) else elim (open_db room_id) [
        | err e ↦ (err e, pm)
        | ok db ↦ (ok tt, record pm { dbs = insert room_id db pm.dbs })
      ]

  unfoldable pub get_room_db : ℕ → PersistenceManager D C → Option D
  unfolding get
  get_room_db room_id pm = get room_id pm.dbs

  unfoldable pub list_room_ids : PersistenceManager D C → List ℕ
  unfolding sort_unstable
  list_room_ids pm = sort_unstable (keys pm.dbs)
