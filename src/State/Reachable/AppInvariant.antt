-- ===== src/State/Reachable/AppInvariant.antt =====
-- The invariant of the application after `n` calls, and the rule for the methods on one room.
use syncpond.Base.{
  ℕ, suc, ◌+◌, ◌≤◌, ◌<◌, String, ◌≡◌, true, false, [], ◌∷◌, arith, ok, err, Result-cases,
  Bool-cases, inl, inr, u64_mod, if◌then◌else◌,
}
use syncpond.Base.Eq.{nat_eq, string_eq, ◌==◌}
use syncpond.Base.HashMap.{HashMap, insert, contains_key, contains_key-insert}
use syncpond.Base.HashMap.Unique.{IsMap, Values, IsMap-insert, Below, Below-insert, Below-contains}
use syncpond.Extern.Json.{Json}
use syncpond.State.{RoomState, RwLock, AppState, Outcome, room_of, put_room, update_room, after}
use syncpond.State.Access.{room_of-put_room, contains_of_room, update_room-eq-ok}
use syncpond.State.Reachable.RoomInvariant.{RoomInv}
use syncpond.State.Reachable.RoomCalls.{Keeps}

module _ {V : Type 0} where
  abbrev pub RoomOk : ℕ → Outcome (RoomState V) → Type 0
  RoomOk n (ok room) = RoomInv n room
  RoomOk n (err e) = Unit

  -- Each label belongs to a room that exists.
  abbrev pub Owned : HashMap ℕ (RwLock (RoomState V)) → HashMap String ℕ → Type 0
  Owned rooms = Values (λ i. contains_key i rooms ≡ true)

  pub record AppInv (n : ℕ) (app : AppState V) : Type 0 where
    -- The rooms are well formed, and each id has one.
    pub rooms : (i : ℕ) → RoomOk n (room_of i app)
    pub unique : IsMap app.rooms
    -- Ids are given in order, so that the next one is new.
    pub fresh : Below app.next_room_id app.rooms
    pub ids : app.next_room_id ≤ n + 1
    pub owned : Owned app.rooms app.labels

  RoomInv-mono : (n : ℕ) (room : RoomState V) → RoomInv n room → RoomInv (suc n) room
  RoomInv-mono n room h = record { versioned = h.versioned; budget = omega (arith, h.budget) }

  pub RoomOk-mono : (n : ℕ) (r : Outcome (RoomState V)) → RoomOk n r → RoomOk (suc n) r
  RoomOk-mono n (ok room) h = RoomInv-mono n room h
  RoomOk-mono n (err e) h = tt

  pub AppInv-mono : (n : ℕ) (app : AppState V) → AppInv n app → AppInv (suc n) app
  AppInv-mono n app h = record {
    rooms = λ i. RoomOk-mono n (room_of i app) (h.rooms i);
    unique = h.unique;
    fresh = h.fresh;
    ids = omega (arith, h.ids);
    owned = h.owned;
  }

  Owned-insert :
      (i : ℕ) (lock : RwLock (RoomState V)) (rooms : HashMap ℕ (RwLock (RoomState V)))
      (labels : HashMap String ℕ)
      → Owned rooms labels
      → Owned (insert i lock rooms) labels
  Owned-insert i lock rooms [] h = tt
  Owned-insert i lock rooms ((label, j) ∷ labels) h =
      (ground (arith, contains_key-insert i j lock rooms), Owned-insert i lock rooms labels h.1)

  pub RoomOk-at :
      (n i j : ℕ) (room : RoomState V) (r : Outcome (RoomState V))
      → RoomInv n room
      → RoomOk n r
      → RoomOk n (if i == j then ok room else r)
  RoomOk-at n i j room r h k = elim (Bool-cases (i == j)) [ inl e ↦ rw e h | inr e ↦ rw e k ]

  pub AppInv-put_room :
      (n i : ℕ) (room : RoomState V) (app : AppState V)
      → contains_key i app.rooms ≡ true
      → RoomInv (suc n) room
      → AppInv n app
      → AppInv (suc n) (put_room i room app)
  AppInv-put_room n i room app there inv h = record {
    rooms = λ j. rw (room_of-put_room i j room app) (
        RoomOk-at (suc n) i j room (room_of j app) inv (RoomOk-mono n (room_of j app) (h.rooms j)));
    unique =
        unfold put_room in
        IsMap-insert i (record { content = room; poisoned = false }) app.rooms h.unique;
    fresh =
        unfold put_room in
        Below-insert app.next_room_id i (record { content = room; poisoned = false }) app.rooms
          (Below-contains app.next_room_id i app.rooms h.fresh there) h.fresh;
    ids = unfold put_room in omega (arith, h.ids);
    owned =
        unfold put_room in
        Owned-insert i (record { content = room; poisoned = false }) app.rooms app.labels h.owned;
  }

module _ {V : Type 0} ⦃J : Json V⦄ where
  -- A method that keeps the invariant of its room keeps that of the application.
  pub update_room-AppInv :
      (n i : ℕ) (f : RoomState V → Outcome (RoomState V)) (app : AppState V)
      → suc n < u64_mod
      → Keeps f
      → AppInv n app
      → AppInv (suc n) (after app (update_room i f app))
  update_room-AppInv n i f app bound keeps h = elim (Result-cases (update_room i f app)) [
    | inl (app', done) ↦
        let (room, room', found, changed, same) = update_room-eq-ok i f app app' done in
        let before : RoomInv n room = rw found at (h.rooms i) in
        rw (done, same)
          (AppInv-put_room n i room' app (contains_of_room i room app found)
            (keeps n room room' bound changed before) h)
    | inr (e, failed) ↦ rw failed (AppInv-mono n app h)
  ]
