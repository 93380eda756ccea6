-- ===== src/Persistence/Directory/Names.antt =====
-- The names of the directories of rooms, said without the code that reads them.
use Prim.Native.Char.{code}
use Prim.Native.String.append
use Prim.Native.String
use text.Mathlib.TextEquality.{Char-path}
use syncpond.Base.{
  ℕ, String, ◌≡◌, ◌↔◌, refl, ap, true, Option, none, some, List, [], ◌∷◌, arith, Result, ok, err,
  Bool-cases, Option-cases, inl, inr, ◌⊎◌, eqb,
}
use syncpond.Base.Eq.{nat_eq, ==_iff, ==_refl}
use syncpond.Base.Text.Decimal.{parse_u64}
use syncpond.Persistence.{strip_prefix}
use syncpond.Persistence.Directory.{id_after, room_id_of}
use syncpond.Persistence.Directory.Listed.{is_id, names, some_names, is_listed, strip_prefix-append}

-- An entry of the directory has this name.
abbrev pub HasName : String → List (Option String) → Type 0
HasName name [] = ⊥
HasName name (entry ∷ entries) = (entry ≡ some name) ⊎ HasName name entries

-- An entry is named `room_` and a number that is the room's id.
abbrev pub IsListed : ℕ → Result (List (Option String)) String → Type 0
IsListed i read_dir =
    (entries : List (Option String)) × (digits : String) × (read_dir ≡ ok entries)
    × (parse_u64 digits ≡ some i)
    × HasName (String.◌++◌ "room_" digits) entries

strip_prefix-eq_some : (p s rest : String) → strip_prefix p s ≡ some rest → s ≡ String.◌++◌ p rest
unfolding strip_prefix
strip_prefix-eq_some String.[] s rest h = rw (append.nil rest) (ground arith)
strip_prefix-eq_some (String.◌∷◌ c p) String.[] rest h = cc
strip_prefix-eq_some (String.◌∷◌ c p) (String.◌∷◌ d s) rest h =
    elim (Bool-cases (eqb (code c) (code d))) [
      | inr differ ↦ ground arith
      | inl same ↦
          let equal : c ≡ d = Char-path c d (ground arith) in
          let tail : strip_prefix p s ≡ some rest = ground arith in
          rw (append.cons c p rest)
            (rw equal (ap (String.◌∷◌ d) (strip_prefix-eq_some p s rest tail)))
    ]

room_id_of-eq_some :
    (name : String) (i : ℕ)
    → room_id_of name ≡ some i
    → (digits : String) × (parse_u64 digits ≡ some i) × (name ≡ String.◌++◌ "room_" digits)
unfolding room_id_of id_after
room_id_of-eq_some name i h = elim (Option-cases (strip_prefix "room_" name)) [
  | inl none_there ↦ ground arith
  | inr (digits, there) ↦ (digits, ground arith, strip_prefix-eq_some "room_" name digits there)
]

is_id-eq_true : (i : ℕ) (o : Option ℕ) → is_id i o ≡ true → o ≡ some i
is_id-eq_true i none h = cc
is_id-eq_true i (some j) h = ap some ((==_iff j i).0 h)

some_names-HasName :
    (i : ℕ) (entries : List (Option String))
    → some_names i entries ≡ true
    → (digits : String) × (parse_u64 digits ≡ some i) × HasName (String.◌++◌ "room_" digits) entries
unfolding some_names
some_names-HasName i [] h = cc
some_names-HasName i (none ∷ entries) h =
    let (digits, is_i, there) = some_names-HasName i entries h in (digits, is_i, inr there)
some_names-HasName i (some name ∷ entries) h = elim (Bool-cases (is_id i (room_id_of name))) [
  | inr other ↦
      let (digits, is_i, there) = some_names-HasName i entries (ground arith) in
      (digits, is_i, inr there)
  | inl this ↦
      let is_i : room_id_of name ≡ some i = is_id-eq_true i (room_id_of name) this in
      let (digits, parsed, named) = room_id_of-eq_some name i is_i in
      (digits, parsed, inl (ap some named))
]

HasName-some_names :
    (i : ℕ) (digits : String) (entries : List (Option String))
    → parse_u64 digits ≡ some i
    → HasName (String.◌++◌ "room_" digits) entries
    → some_names i entries ≡ true
unfolding some_names room_id_of id_after
HasName-some_names i digits [] parsed there = elim there [ ]
HasName-some_names i digits (entry ∷ entries) parsed (inr there) =
    ground (arith, HasName-some_names i digits entries parsed there)
HasName-some_names i digits (entry ∷ entries) parsed (inl here) =
    let stripped = strip_prefix-append "room_" digits in
    let this : names i (some (String.◌++◌ "room_" digits)) ≡ true = ground (arith, ==_refl i) in
    rw here (ground arith)

pub is_listed_iff :
    (i : ℕ) (read_dir : Result (List (Option String)) String)
    → (is_listed i read_dir ≡ true) ↔ IsListed i read_dir
unfolding is_listed
is_listed_iff i (err e) = (λ h. cc, λ (entries, digits, same, parsed, there). cc)
is_listed_iff i (ok entries) = (
  λ h.
      let (digits, parsed, there) = some_names-HasName i entries h in
      (entries, digits, refl, parsed, there),
  λ (listed, digits, same, parsed, there).
      HasName-some_names i digits entries parsed
        (let equal : entries ≡ listed = ground arith in rw equal there),
)
