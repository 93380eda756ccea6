-- ===== src/Persistence/Directory/Opened.antt =====
-- The stores that are open once the save directory was read are those on the disk.
use syncpond.Base.{
  ℕ, String, ◌≡◌, ◌∙◌, refl, true, Option, none, some, List, [], ◌∷◌, arith, Result, ok, err,
  Bool-cases, Result-cases, inl, inr, Option-cases,
}
use syncpond.Base.Eq.{nat_eq, ◌==◌, ==_iff}
use syncpond.Base.HashMap.{get, contains_key, get-insert}
use syncpond.Persistence.{PersistenceManager, open_room_db}
use syncpond.Persistence.Directory.{
  new, open_named, open_entries, open_existing_room_dbs, room_id_of,
}
use syncpond.Persistence.Directory.Listed.{is_listed, contains_key-open_existing}

module _ {D C : Type 0} (open_db : ℕ → Result D String) where
  -- Every open store is the one that the disk has.
  abbrev IsFromDisk : PersistenceManager D C → Type 0
  IsFromDisk pm = (j : ℕ) (db : D) → get j pm.dbs ≡ some db → open_db j ≡ ok db

  IsFromDisk-open_room_db :
      (i : ℕ) (pm : PersistenceManager D C)
      → IsFromDisk pm
      → IsFromDisk ((open_room_db open_db i pm).1)
  unfolding open_room_db
  IsFromDisk-open_room_db i pm from j db at_j = elim (Bool-cases (contains_key i pm.dbs)) [
    | inl there ↦ from j db (ground arith)
    | inr missing ↦ elim (Result-cases (open_db i)) [
      | inr (e, failed) ↦ from j db (ground arith)
      | inl (fresh, opened) ↦ elim (Bool-cases (i == j)) [
        | inl same ↦
            let is_j : i ≡ j = (==_iff i j).0 same in
            ground (arith, get-insert i j fresh pm.dbs, is_j)
        | inr other ↦ from j db (ground (arith, get-insert i j fresh pm.dbs))
      ]
    ]
  ]

  IsFromDisk-open_named :
      (o : Option ℕ) (pm : PersistenceManager D C)
      → IsFromDisk pm
      → IsFromDisk (open_named open_db o pm)
  unfolding open_named
  IsFromDisk-open_named none pm from = from
  IsFromDisk-open_named (some i) pm from = IsFromDisk-open_room_db i pm from

  IsFromDisk-open_entries :
      (entries : List (Option String)) (pm : PersistenceManager D C)
      → IsFromDisk pm
      → IsFromDisk (open_entries open_db entries pm)
  unfolding open_entries
  IsFromDisk-open_entries [] pm from = from
  IsFromDisk-open_entries (none ∷ entries) pm from = IsFromDisk-open_entries entries pm from
  IsFromDisk-open_entries (some name ∷ entries) pm from =
      IsFromDisk-open_entries entries _ (IsFromDisk-open_named (room_id_of name) pm from)

  IsFromDisk-open_existing :
      (read_dir : Result (List (Option String)) String) (empty_cache : C)
      → IsFromDisk ((open_existing_room_dbs open_db read_dir (new empty_cache)).1)
  unfolding open_existing_room_dbs new get
  IsFromDisk-open_existing (err e) empty_cache = λ j db at_j. cc
  IsFromDisk-open_existing (ok entries) empty_cache =
      IsFromDisk-open_entries entries (new empty_cache) (λ j db at_j. cc)

  -- The store of a room that is listed, and that the disk has, is open.
  pub get-open_existing :
      (read_dir : Result (List (Option String)) String) (empty_cache : C) (i : ℕ) (db : D)
      → is_listed i read_dir ≡ true
      → open_db i ≡ ok db
      → get i ((open_existing_room_dbs open_db read_dir (new empty_cache)).1).dbs ≡ some db
  get-open_existing read_dir empty_cache i db listed opened =
      let dbs = ((open_existing_room_dbs open_db read_dir (new empty_cache)).1).dbs in
      let there = contains_key-open_existing open_db read_dir empty_cache i in
      elim (Option-cases (get i dbs)) [
        | inl missing ↦ unfold contains_key in ground arith
        | inr (db1, at_i) ↦
            let same = IsFromDisk-open_existing read_dir empty_cache i db1 at_i in ground arith
      ]

  cache-open_named :
      (o : Option ℕ) (pm : PersistenceManager D C)
      → (open_named open_db o pm).bucket_cache ≡ pm.bucket_cache
  unfolding open_named open_room_db
  cache-open_named none pm = refl
  cache-open_named (some i) pm = elim (Result-cases (open_db i)) [
    | inl (db, opened) ↦ ground arith
    | inr (e, failed) ↦ ground arith
  ]

  cache-open_entries :
      (entries : List (Option String)) (pm : PersistenceManager D C)
      → (open_entries open_db entries pm).bucket_cache ≡ pm.bucket_cache
  unfolding open_entries
  cache-open_entries [] pm = refl
  cache-open_entries (none ∷ entries) pm = cache-open_entries entries pm
  cache-open_entries (some name ∷ entries) pm =
      cache-open_entries entries (open_named open_db (room_id_of name) pm)
      ∙ cache-open_named (room_id_of name) pm

  pub cache-open_existing :
      (read_dir : Result (List (Option String)) String) (empty_cache : C)
      → ((open_existing_room_dbs open_db read_dir (new empty_cache)).1).bucket_cache ≡ empty_cache
  unfolding open_existing_room_dbs new
  cache-open_existing (err e) empty_cache = refl
  cache-open_existing (ok entries) empty_cache = cache-open_entries entries (new empty_cache)
