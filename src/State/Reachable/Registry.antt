-- ===== src/State/Reachable/Registry.antt =====
-- Creating, deleting and labelling a room keep the invariant of the application.
use syncpond.Base.{
  ℕ, suc, ◌+◌, ◌<◌, String, ◌≡◌, true, false, [], ◌∷◌, arith, Bool-cases, inl, inr, u64_mod,
  wrapping_add,
}
use syncpond.Base.Eq.{nat_eq, string_eq, ◌==◌, ==_iff}
use syncpond.Base.HashMap.{
  HashMap, get, insert, remove, contains_key, get-insert, get-remove, contains_key-insert,
  contains_key-remove,
}
use syncpond.Base.HashMap.Unique.{
  IsMap-insert, IsMap-remove, Values-insert, Below-mono, Below-insert, Below-remove,
}
use syncpond.Base.Text.{trim}
use syncpond.State.{RoomState, RwLock, AppState, room_of, lock_content, after}
use syncpond.State.Rooms.{new_room, retain_other, create_room, delete_room}
use syncpond.State.Labels.{set_room_label}
use syncpond.State.Reachable.Loading.{new_room-RoomInv}
use syncpond.State.Reachable.AppInvariant.{AppInv, Owned, RoomOk, RoomOk-mono}

module _ {V : Type 0} where
  Owned-remove :
      (i : ℕ) (rooms : HashMap ℕ (RwLock (RoomState V))) (labels : HashMap String ℕ)
      → Owned rooms labels
      → Owned (remove i rooms) (retain_other i labels)
  unfolding retain_other
  Owned-remove i rooms [] h = tt
  Owned-remove i rooms ((label, j) ∷ labels) h = ground (
    arith,
    Owned-remove i rooms labels h.1,
    contains_key-remove i j rooms,
    ==_iff i j,
    ==_iff j i,
  )

  room_of-remove :
      (n i j : ℕ) (app : AppState V)
      → RoomOk n (room_of j app)
      → RoomOk n (lock_content (get j (remove i app.rooms)))
  unfolding room_of
  room_of-remove n i j app h = elim (Bool-cases (i == j)) [
    | inl e ↦ rw (get-remove i j app.rooms, e) tt
    | inr e ↦ rw (get-remove i j app.rooms, e) h
  ]

  pub delete_room-AppInv :
      (n i : ℕ) (app : AppState V) → AppInv n app → AppInv n (after app (delete_room i app))
  unfolding delete_room
  delete_room-AppInv n i app h = elim (Bool-cases (contains_key i app.rooms)) [
    | inl there ↦ rw there (record {
      rooms = λ j. unfold room_of in room_of-remove n i j app (h.rooms j);
      unique = IsMap-remove i app.rooms h.unique;
      fresh = Below-remove app.next_room_id i app.rooms h.fresh;
      ids = h.ids;
      owned = Owned-remove i app.rooms app.labels h.owned;
    })
    | inr missing ↦ rw missing h
  ]

  -- A call that leaves the rooms, the labels and the next id alone.
  pub AppInv-same :
      (n : ℕ) (app app' : AppState V)
      → app'.rooms ≡ app.rooms
      → app'.labels ≡ app.labels
      → app'.next_room_id ≡ app.next_room_id
      → AppInv n app
      → AppInv n app'
  unfolding room_of
  AppInv-same n app app' r l i h = record {
    rooms = λ j. rw r (h.rooms j);
    unique = rw r h.unique;
    fresh = rw (r, i) h.fresh;
    ids = rw i h.ids;
    owned = rw (r, l) h.owned;
  }

  Owned-insert :
      (i : ℕ) (lock : RwLock (RoomState V)) (rooms : HashMap ℕ (RwLock (RoomState V)))
      (labels : HashMap String ℕ)
      → Owned rooms labels
      → Owned (insert i lock rooms) labels
  Owned-insert i lock rooms [] h = tt
  Owned-insert i lock rooms ((label, j) ∷ labels) h =
      (ground (arith, contains_key-insert i j lock rooms), Owned-insert i lock rooms labels h.1)

  room_of-insert :
      (n i j : ℕ) (app : AppState V)
      → RoomOk n (room_of j app)
      → RoomOk n (
          lock_content
            (get j (insert i (record { content = new_room; poisoned = false }) app.rooms)))
  unfolding room_of
  room_of-insert n i j app h = elim (Bool-cases (i == j)) [
    | inl e ↦ rw (get-insert i j _ app.rooms, e) (new_room-RoomInv n)
    | inr e ↦ rw (get-insert i j _ app.rooms, e) h
  ]

  pub create_room-AppInv :
      (n : ℕ) (app : AppState V)
      → suc (suc n) < u64_mod
      → AppInv n app
      → AppInv (suc n) (create_room app).1
  unfolding create_room
  create_room-AppInv n app bound h =
      let id = app.next_room_id in
      let lock : RwLock (RoomState V) = record { content = new_room; poisoned = false } in
      let next : wrapping_add id 1 ≡ id + 1 = omega (arith, h.ids) in
      record {
        rooms = λ j.
            unfold room_of in
            room_of-insert (suc n) id j app (RoomOk-mono n (room_of j app) (h.rooms j));
        unique = IsMap-insert id lock app.rooms h.unique;
        fresh =
            Below-insert (wrapping_add id 1) id lock app.rooms (omega (arith, next))
              (Below-mono id (wrapping_add id 1) app.rooms (omega (arith, next)) h.fresh);
        ids = omega (arith, h.ids, next);
        owned = Owned-insert id lock app.rooms app.labels h.owned;
      }

  claim-AppInv :
      (n i : ℕ) (label : String) (app : AppState V)
      → contains_key i app.rooms ≡ true
      → AppInv n app
      → AppInv n (record app { labels = insert label i app.labels })
  claim-AppInv n i label app there h = record {
    rooms = λ j. unfold room_of in h.rooms j;
    unique = h.unique;
    fresh = h.fresh;
    ids = h.ids;
    owned = Values-insert (λ j. contains_key j app.rooms ≡ true) label i app.labels there h.owned;
  }

  pub set_room_label-AppInv :
      (n i : ℕ) (label : String) (app : AppState V)
      → AppInv n app
      → AppInv n (after app (set_room_label i label app))
  unfolding set_room_label
  set_room_label-AppInv n i label app h = ground (arith, claim-AppInv n i (trim label) app)
