-- ===== src/State/Reachable/RoomCalls.antt =====
-- What each method does to its room keeps the invariant of the room.
use syncpond.Base.{
  ℕ, suc, ◌+◌, ◌<◌, String, ◌≡◌, refl, ◌∙◌, ap, Bool, Option, none, some, List, [], ◌∷◌, ◌++◌,
  arith, ok, length, u64_mod, Option-cases, ◌⊎◌, inl, inr,
}
use syncpond.Base.Eq.{nat_eq, string_eq}
use syncpond.Extern.Json.{Json}
use syncpond.State.{RoomCommand, set, del, RoomState, Outcome}
use syncpond.State.Buckets.{label_bucket, flag_bucket, change_bit}
use syncpond.State.Members.{insert_member, drop_member}
use syncpond.State.Fragments.{write_entry, set_in_room, del_in_room}
use syncpond.State.Transactions.{begin_in_room, abort_in_room, end_in_room, drain}
use syncpond.State.Transactions.Requests.{tx_buffer-apply_command}
use syncpond.State.Views.Sync.{drain-IsVersioned}
use syncpond.State.Reachable.RoomInvariant.{
  pending, RoomInv, SameData, IsVersioned-same, RoomInv-same, RoomInv-write_entry,
}

module _ {V : Type 0} ⦃J : Json V⦄ where
  -- What a call may do to a room.
  abbrev pub Keeps : (RoomState V → Outcome (RoomState V)) → Type 0
  Keeps f =
      (n : ℕ) (room room' : RoomState V)
      → suc n < u64_mod
      → f room ≡ ok room'
      → RoomInv n room
      → RoomInv (suc n) room'

  length-append_one :
      (cs : List (RoomCommand V)) (c : RoomCommand V) → length (cs ++ c ∷ []) ≡ length cs + 1
  length-append_one [] c = omega arith
  length-append_one (d ∷ cs) c = omega (arith, length-append_one cs c)

  -- A write is made at once, or buffered.
  abbrev WritesOrSame : ℕ → String → V → RoomState V → RoomState V → Type 0
  WritesOrSame b k v room room' = (room' ≡ write_entry b k v room) ⊎ SameData room room'

  set_cases :
      (b : ℕ) (k : String) (v : V) (room room' : RoomState V) (t : Option (List (RoomCommand V)))
      → room.tx_buffer ≡ t
      → set_in_room b k v room ≡ ok room'
      → WritesOrSame b k v room room'
  unfolding set_in_room
  set_cases b k v room room' none e h = inl (ground arith)
  set_cases b k v room room' (some cs) e h = inr (ground (arith, length-append_one cs (set b k v)))

  del_cases :
      (b : ℕ) (k : String) (room room' : RoomState V) (t : Option (List (RoomCommand V)))
      → room.tx_buffer ≡ t
      → del_in_room b k room ≡ ok room'
      → WritesOrSame b k J.null room room'
  unfolding del_in_room
  del_cases b k room room' none e h = inl (ground arith)
  del_cases b k room room' (some cs) e h = inr (ground (arith, length-append_one cs (del b k)))

  WritesOrSame-RoomInv :
      (n b : ℕ) (k : String) (v : V) (room room' : RoomState V)
      → suc n < u64_mod
      → RoomInv n room
      → WritesOrSame b k v room room'
      → RoomInv (suc n) room'
  WritesOrSame-RoomInv n b k v room room' bound inv (inl e) =
      rw e (RoomInv-write_entry n b k v room bound inv)
  WritesOrSame-RoomInv n b k v room room' bound inv (inr same) = RoomInv-same n room room' same inv

  pub set_in_room-Keeps : (b : ℕ) (k : String) (v : V) → Keeps (set_in_room b k v)
  set_in_room-Keeps b k v n room room' bound h inv =
      WritesOrSame-RoomInv n b k v room room' bound inv
        (set_cases b k v room room' room.tx_buffer refl h)

  pub del_in_room-Keeps : (b : ℕ) (k : String) → Keeps (del_in_room b k)
  del_in_room-Keeps b k n room room' bound h inv =
      WritesOrSame-RoomInv n b k J.null room room' bound inv
        (del_cases b k room room' room.tx_buffer refl h)

  pub begin_in_room-Keeps : Keeps begin_in_room
  unfolding begin_in_room
  begin_in_room-Keeps n room room' bound h inv = RoomInv-same n room room' (ground arith) inv

  pub abort_in_room-Keeps : Keeps abort_in_room
  unfolding abort_in_room
  abort_in_room-Keeps n room room' bound h inv = RoomInv-same n room room' (ground arith) inv

  tx_buffer-drain :
      (cs : List (RoomCommand V)) (room : RoomState V) → (drain room cs).tx_buffer ≡ room.tx_buffer
  unfolding drain
  tx_buffer-drain [] room = refl
  tx_buffer-drain (c ∷ cs) room = tx_buffer-drain cs _ ∙ tx_buffer-apply_command c room

  drained-RoomInv :
      (n : ℕ) (cs : List (RoomCommand V)) (room : RoomState V)
      → suc n < u64_mod
      → room.tx_buffer ≡ some cs
      → RoomInv n room
      → RoomInv (suc n) (drain (record room { tx_buffer = none }) cs)
  drained-RoomInv n cs room bound t inv =
      let start : RoomState V = record room { tx_buffer = none } in
      let full : pending room.tx_buffer ≡ length cs = ap pending t in
      let (ran, count) =
        drain-IsVersioned cs start (omega (arith, inv.budget, full))
          (IsVersioned-same room start refl refl inv.versioned) in
      let empty : pending (drain start cs).tx_buffer ≡ 0 = ap pending (tx_buffer-drain cs start) in
      record { versioned = ran.versioned; budget = omega (arith, inv.budget, full, count, empty) }

  pub end_in_room-Keeps : Keeps end_in_room
  unfolding end_in_room
  end_in_room-Keeps n room room' bound h inv = elim (Option-cases room.tx_buffer) [
    | inl closed ↦ absurd (ground arith)
    | inr (cs, open_tx) ↦
        let e : room' ≡ drain (record room { tx_buffer = none }) cs = ground arith in
        rw e (drained-RoomInv n cs room bound open_tx inv)
  ]

  pub label_bucket-Keeps : (b : ℕ) (label : String) → Keeps (label_bucket b label)
  unfolding label_bucket
  label_bucket-Keeps b label n room room' bound h inv = RoomInv-same n room room' (ground arith) inv

  pub flag_bucket-Keeps : (b flags : ℕ) → Keeps (flag_bucket b flags)
  unfolding flag_bucket
  flag_bucket-Keeps b flags n room room' bound h inv = RoomInv-same n room room' (ground arith) inv

  pub change_bit-Keeps : (b mask : ℕ) (on : Bool) → Keeps (change_bit b mask on)
  unfolding change_bit
  change_bit-Keeps b mask on n room room' bound h inv = RoomInv-same n room room' (ground arith) inv

  pub insert_member-Keeps : (member : String) → Keeps (insert_member member)
  unfolding insert_member
  insert_member-Keeps member n room room' bound h inv = RoomInv-same n room room' (ground arith) inv

  pub drop_member-Keeps : (member : String) → Keeps (drop_member member)
  unfolding drop_member
  drop_member-Keeps member n room room' bound h inv = RoomInv-same n room room' (ground arith) inv
