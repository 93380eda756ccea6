-- ===== src/Persistence/Directory.antt =====
-- `PersistenceManager::new` and `open_existing_room_dbs`,
-- server/crates/sp-kernel/src/persistance/mod.rs: the stores that the save directory holds.
pub mod Listed
pub mod Opened
pub mod Names
use syncpond.Base.{ℕ, String, Option, none, some, List, [], ◌∷◌, Result, ok, err}
use Prim.Native.String
use syncpond.Base.Text.Decimal.{parse_u64}
use syncpond.Persistence.{PersistenceManager, strip_prefix, open_room_db}

unfoldable pub id_after : Option String → Option ℕ
unfolding parse_u64
id_after none = none
id_after (some rest) = parse_u64 rest

-- The id in the name of a directory, if it is a room's: `room_` and a number.
unfoldable pub room_id_of : String → Option ℕ
unfolding strip_prefix id_after
room_id_of name = id_after (strip_prefix "room_" name)

module _ {D C : Type 0} where
  unfoldable pub new : (empty_cache : C) → PersistenceManager D C
  new empty_cache = record { dbs = []; bucket_cache = empty_cache }

  module _ (open_db : ℕ → Result D String) where
    open_named : Option ℕ → PersistenceManager D C → PersistenceManager D C
    unfolding open_room_db
    open_named none pm = pm
    open_named (some room_id) pm = (open_room_db open_db room_id pm).1

    -- The loop over the entries; `none` is an entry that cannot be read, or whose name is no
    -- UTF-8. A store that cannot be opened is passed over.
    unfoldable pub open_entries :
        List (Option String) → PersistenceManager D C → PersistenceManager D C
    unfolding room_id_of open_named
    open_entries [] pm = pm
    open_entries (none ∷ entries) pm = open_entries entries pm
    open_entries (some name ∷ entries) pm = open_entries entries (open_named (room_id_of name) pm)

    -- `read_dir` is what `std::fs::read_dir` gives for the save directory.
    unfoldable pub open_existing_room_dbs :
        (read_dir : Result (List (Option String)) String)
        → PersistenceManager D C
        → Result (Unit {0}) String × PersistenceManager D C
    unfolding open_entries
    open_existing_room_dbs (err e) pm = (err (String.◌++◌ "read_dir failed: " e), pm)
    open_existing_room_dbs (ok entries) pm = (ok tt, open_entries entries pm)
