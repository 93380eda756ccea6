-- ===== src/Startup/Stubs.antt =====
-- The rooms of a server that has started: those of the stores on disk, not loaded.
use syncpond.Base.{
  ℕ, ◌+◌, ◌<◌, ◌≤◌, ◌≡◌, ◌∙◌, refl, true, false, Bool, Option, none, some, List, [], ◌∷◌, arith, ok,
  err, unwrap_or, u64_mod, max, if◌then◌else◌,
}
use syncpond.Base.Eq.{nat_eq, ◌==◌}
use syncpond.Base.HashMap.{get, insert, get-insert}
use syncpond.Base.HashMap.Unique.{IsMap, IsMap-insert, Below, Below-insert}
use syncpond.Base.HashSet.{contains}
use syncpond.State.{RoomState, RwLock, AppState, room_of}
use syncpond.State.Errors.{room_not_found}
use syncpond.State.Reachable.RoomInvariant.{RoomInv}
use syncpond.State.Reachable.AppInvariant.{AppInv, RoomOk}
use syncpond.State.Fragments.Entries.{entry_at}
use syncpond.Startup.{max_of, stub_room, register_stubs, reserve_ids, register_existing}

-- Every id of the list is at most `m`.
abbrev AtMost : ℕ → List ℕ → Type 0
AtMost m [] = Unit {0}
AtMost m (i ∷ is) = (i ≤ m) × AtMost m is

AtMost-mono : (m n : ℕ) (is : List ℕ) → m ≤ n → AtMost m is → AtMost n is
AtMost-mono m n [] h a = tt
AtMost-mono m n (i ∷ is) h a = (omega arith, AtMost-mono m n is h a.1)

-- The greatest id of the list; 0 of an empty one.
unfoldable pub top_id : List ℕ → ℕ
unfolding max_of
top_id is = unwrap_or (max_of is) 0

top_id-cons : (i : ℕ) (is : List ℕ) → top_id (i ∷ is) ≡ max i (top_id is)
unfolding top_id
top_id-cons i is = ground arith

AtMost-top_id : (is : List ℕ) → AtMost (top_id is) is
AtMost-top_id [] = tt
AtMost-top_id (i ∷ is) = (
  ground (arith, top_id-cons i is),
  AtMost-mono (top_id is) (top_id (i ∷ is)) is (ground (arith, top_id-cons i is))
      (AtMost-top_id is),
)

stub-RoomInv : (V : Type 0) (n : ℕ) → RoomInv n (stub_room {V = V})
unfolding entry_at get
stub-RoomInv V n = record {
  versioned = record { table = (tt, tt); versions = λ b k. omega arith };
  budget = omega arith;
}

stub-RoomOk :
    (V : Type 0) (n : ℕ) (known : Bool)
    → RoomOk {V = V} n (if known then ok stub_room else err room_not_found)
stub-RoomOk V n true = stub-RoomInv V n
stub-RoomOk V n false = tt

module _ {V : Type 0} where
  abbrev stub_lock : RwLock (RoomState V)
  stub_lock = record { content = stub_room; poisoned = false }

  -- A registered id has the stub, any other the room from before.
  room_of-register_stubs :
      (j : ℕ) (is : List ℕ) (app : AppState V)
      → room_of j (register_stubs is app) ≡ (if contains j is then ok stub_room else room_of j app)
  unfolding register_stubs contains
  room_of-register_stubs j [] app = refl
  room_of-register_stubs j (i ∷ is) app =
      let app' : AppState V = record app { rooms = insert i stub_lock app.rooms } in
      let here : room_of j app' ≡ (if i == j then ok stub_room else room_of j app) =
        unfold room_of in ground (arith, get-insert i j stub_lock app.rooms) in
      ground (arith, room_of-register_stubs j is app', here)

  next_room_id-register_stubs :
      (is : List ℕ) (app : AppState V) → (register_stubs is app).next_room_id ≡ app.next_room_id
  unfolding register_stubs
  next_room_id-register_stubs [] app = refl
  next_room_id-register_stubs (i ∷ is) app = next_room_id-register_stubs is _

  labels-register_stubs :
      (is : List ℕ) (app : AppState V) → (register_stubs is app).labels ≡ app.labels
  unfolding register_stubs
  labels-register_stubs [] app = refl
  labels-register_stubs (i ∷ is) app = labels-register_stubs is _

  IsMap-register_stubs :
      (is : List ℕ) (app : AppState V) → IsMap app.rooms → IsMap (register_stubs is app).rooms
  unfolding register_stubs
  IsMap-register_stubs [] app h = h
  IsMap-register_stubs (i ∷ is) app h =
      IsMap-register_stubs is _ (IsMap-insert i stub_lock app.rooms h)

  Below-register_stubs :
      (m : ℕ) (is : List ℕ) (app : AppState V)
      → AtMost m is
      → Below (m + 1) app.rooms
      → Below (m + 1) (register_stubs is app).rooms
  unfolding register_stubs
  Below-register_stubs m [] app h b = b
  Below-register_stubs m (i ∷ is) app h b =
      Below-register_stubs m is _ h.1
        (Below-insert (m + 1) i stub_lock app.rooms (omega (arith, h.0)) b)

  next_id-reserve_ids :
      (is : List ℕ) (app : AppState V)
      → top_id is + 1 < u64_mod
      → app.next_room_id ≡ 1
      → (reserve_ids (max_of is) app).next_room_id ≡ top_id is + 1
  unfolding reserve_ids top_id max_of
  next_id-reserve_ids [] app bound first = ground arith
  next_id-reserve_ids (i ∷ is) app bound first = ground arith

  rooms-reserve_ids : (o : Option ℕ) (app : AppState V) → (reserve_ids o app).rooms ≡ app.rooms
  unfolding reserve_ids
  rooms-reserve_ids none app = refl
  rooms-reserve_ids (some m) app = ground arith

  labels-reserve_ids : (o : Option ℕ) (app : AppState V) → (reserve_ids o app).labels ≡ app.labels
  unfolding reserve_ids
  labels-reserve_ids none app = refl
  labels-reserve_ids (some m) app = ground arith

  -- A state without rooms and labels, whose next id is the first one.
  pub record IsBlank (app : AppState V) : Type 0 where
    pub no_rooms : app.rooms ≡ []
    pub no_labels : app.labels ≡ []
    pub first : app.next_room_id ≡ 1

  pub room_of-register_existing :
      (j : ℕ) (is : List ℕ) (app : AppState V)
      → IsBlank app
      → room_of j (register_existing is app)
        ≡ (if contains j is then ok stub_room else err room_not_found)
  unfolding register_existing
  room_of-register_existing j is app blank =
      let stubs = register_stubs is app in
      let same : room_of j (reserve_ids (max_of is) stubs) ≡ room_of j stubs =
        unfold room_of in rw (rooms-reserve_ids (max_of is) stubs) refl in
      let none_yet : room_of j app ≡ err room_not_found =
        unfold room_of in rw blank.no_rooms refl in
      ground (arith, same, none_yet, room_of-register_stubs j is app)

  pub register_existing-AppInv :
      (is : List ℕ) (app : AppState V)
      → top_id is + 1 < u64_mod
      → IsBlank app
      → AppInv (top_id is) (register_existing is app)
  unfolding register_existing
  register_existing-AppInv is app bound blank =
      let stubs = register_stubs is app in
      let rooms = rooms-reserve_ids (max_of is) stubs in
      let next =
        next_id-reserve_ids is stubs bound (next_room_id-register_stubs is app ∙ blank.first) in
      let labels =
        labels-reserve_ids (max_of is) stubs ∙ (labels-register_stubs is app ∙ blank.no_labels) in
      record {
        rooms = λ j.
            rw (room_of-register_existing j is app blank)
              (stub-RoomOk V (top_id is) (contains j is));
        unique = rw rooms (IsMap-register_stubs is app (rw blank.no_rooms tt));
        fresh =
            rw (rooms, next)
              (Below-register_stubs (top_id is) is app (AtMost-top_id is) (rw blank.no_rooms tt));
        ids = omega (arith, next);
        owned = rw labels tt;
      }
