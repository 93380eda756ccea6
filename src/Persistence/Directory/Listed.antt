-- ===== src/Persistence/Directory/Listed.antt =====
-- Which stores are open once the save directory was read.
use Prim.Native.String.append
use Prim.Native.String
use syncpond.Base.{
  ℕ, String, ◌≡◌, ◌∙◌, refl, ap, true, false, Bool, ◌||◌, ◌&&◌, Option, none, some, List, [], ◌∷◌,
  arith, Result, ok, err, ◌≤◌, u64_max, Result-cases, inl, inr,
}
use syncpond.Base.Eq.{nat_eq, ◌==◌, ==_iff}
use syncpond.Base.HashMap.{contains_key, contains_key-insert}
use syncpond.Base.Text.Decimal.{to_string}
use syncpond.Base.Text.Decimal.RoundTrip.{parse_u64-to_string}
use syncpond.Persistence.{PersistenceManager, open_room_db, strip_prefix}
use syncpond.Persistence.Directory.{
  id_after, room_id_of, new, open_named, open_entries, open_existing_room_dbs,
}

abbrev pub is_id : ℕ → Option ℕ → Bool
is_id i none = false
is_id i (some j) = j == i

-- An entry's name is that of the room's directory.
abbrev pub names : ℕ → Option String → Bool
names i none = false
names i (some name) = is_id i (room_id_of name)

unfoldable pub some_names : ℕ → List (Option String) → Bool
some_names i [] = false
some_names i (entry ∷ entries) = names i entry || some_names i entries

-- Some entry of the directory names the room.
unfoldable pub is_listed : ℕ → Result (List (Option String)) String → Bool
unfolding some_names
is_listed i (err e) = false
is_listed i (ok entries) = some_names i entries

abbrev pub can_open : {D : Type 0} → Result D String → Bool
can_open (ok db) = true
can_open (err e) = false

module _ {D C : Type 0} (open_db : ℕ → Result D String) where
  contains_key-open_room_db :
      (i j : ℕ) (pm : PersistenceManager D C)
      → contains_key j ((open_room_db open_db i pm).1).dbs
        ≡ (contains_key j pm.dbs || (i == j && can_open (open_db j)))
  unfolding open_room_db
  contains_key-open_room_db i j pm = elim (Result-cases (open_db i)) [
    | inl (db, opened) ↦ ground (arith, contains_key-insert i j db pm.dbs, ==_iff i j)
    | inr (e, failed) ↦ ground (arith, ==_iff i j)
  ]

  contains_key-open_named :
      (o : Option ℕ) (j : ℕ) (pm : PersistenceManager D C)
      → contains_key j (open_named open_db o pm).dbs
        ≡ (contains_key j pm.dbs || (is_id j o && can_open (open_db j)))
  unfolding open_named
  contains_key-open_named none j pm = ground arith
  contains_key-open_named (some i) j pm = contains_key-open_room_db i j pm

  contains_key-open_entries :
      (entries : List (Option String)) (j : ℕ) (pm : PersistenceManager D C)
      → contains_key j (open_entries open_db entries pm).dbs
        ≡ (contains_key j pm.dbs || (some_names j entries && can_open (open_db j)))
  unfolding open_entries some_names
  contains_key-open_entries [] j pm = ground arith
  contains_key-open_entries (none ∷ entries) j pm = contains_key-open_entries entries j pm
  contains_key-open_entries (some name ∷ entries) j pm =
      let named = open_named open_db (room_id_of name) pm in
      ground (
        arith,
        contains_key-open_entries entries j named,
        contains_key-open_named (room_id_of name) j pm,
      )

  -- The stores that are open are those of the directories that can be opened.
  pub contains_key-open_existing :
      (read_dir : Result (List (Option String)) String) (empty_cache : C) (j : ℕ)
      → contains_key j ((open_existing_room_dbs open_db read_dir (new empty_cache)).1).dbs
        ≡ (is_listed j read_dir && can_open (open_db j))
  unfolding open_existing_room_dbs is_listed new
  contains_key-open_existing (err e) empty_cache j = unfold contains_key in refl
  contains_key-open_existing (ok entries) empty_cache j =
      contains_key-open_entries entries j (new empty_cache) ∙ (unfold contains_key in refl)

pub strip_prefix-append : (p s : String) → strip_prefix p (String.◌++◌ p s) ≡ some s
unfolding strip_prefix
strip_prefix-append String.[] s = rw (append.nil s) refl
strip_prefix-append (String.◌∷◌ c p) s =
    rw (append.cons c p s) (ground (arith, strip_prefix-append p s))

read_id : (i : ℕ) → i ≤ u64_max → id_after (some (to_string i)) ≡ some i
unfolding id_after
read_id i bound = parse_u64-to_string i bound

-- The name that the directory of a room gets is read back as its id.
pub room_id_of-name :
    (i : ℕ) → i ≤ u64_max → room_id_of (String.◌++◌ "room_" (to_string i)) ≡ some i
unfolding room_id_of
room_id_of-name i bound = ap id_after (strip_prefix-append "room_" (to_string i)) ∙ read_id i bound
