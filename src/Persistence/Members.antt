-- ===== src/Persistence/Members.antt =====
-- The list of members in the store of a room.
use syncpond.Base.{
  ℕ, String, ◌≡◌, ◌∙◌, true, false, some, List, arith, ok, if◌then◌else◌, Result-cases, inl, inr,
}
use syncpond.Base.Eq.{string_eq, ◌==◌, ==_refl}
use syncpond.Base.HashSet
use syncpond.Base.HashSet.{
  HashSet, contains, collect, contains-insert, contains-remove, contains-collect,
}
use syncpond.Base.Sort.{sort_text}
use syncpond.Base.Sort.Order.{contains-sort_text}
use syncpond.Base.Text.{trim, is_empty_str}
use syncpond.Extern.Json.{Bytes}
use syncpond.Extern.Rocks.{Rocks, Serde}
use syncpond.Persistence.{member_list_key}
use syncpond.Persistence.Rooms.{
  RoomPersistence, read, put, decode_members, load_members, update_member_list, persist_member,
  remove_member,
}

pub put-eq-ok :
    {D C : Type 0} ⦃R : Rocks D⦄ (key : String) (bytes : Bytes) (s s1 : RoomPersistence D C)
    → put key bytes s ≡ (ok tt, s1)
    → R.db_put key bytes s.db ≡ (ok tt, s1.db)
unfolding put
put-eq-ok ⦃R = R⦄ key bytes s s1 h = elim (Result-cases ((R.db_put key bytes s.db).0)) [
  | inr (e, failed) ↦ ground arith
  | inl (done, wrote) ↦ ground arith
]

contains-stored :
    (j : String) (members : HashSet String)
    → contains j (collect (sort_text members)) ≡ contains j members
contains-stored j members = contains-collect j (sort_text members) ∙ contains-sort_text j members

module _ {D C : Type 0} ⦃R : Rocks D⦄ ⦃M : Serde (List String)⦄ (room_id : ℕ) where
  -- What a successful `update_member_list` did to the store.
  update_member_list-eq-ok :
      (members : HashSet String) (s s1 : RoomPersistence D C)
      → update_member_list room_id members s ≡ (ok tt, s1)
      → (bytes : Bytes) × (M.serialize (sort_text members) ≡ ok bytes)
        × (R.db_put (member_list_key room_id) bytes s.db ≡ (ok tt, s1.db))
  unfolding update_member_list
  update_member_list-eq-ok members s s1 h = elim (Result-cases (M.serialize (sort_text members))) [
    | inr (e, failed) ↦ ground arith
    | inl (bytes, saved) ↦
        let puts : put (member_list_key room_id) bytes s ≡ (ok tt, s1) = ground arith in
        (bytes, saved, put-eq-ok (member_list_key room_id) bytes s s1 puts)
  ]

  load-update_member_list :
      (members : HashSet String) (s s1 : RoomPersistence D C)
      → update_member_list room_id members s ≡ (ok tt, s1)
      → load_members room_id s1 ≡ (ok (collect (sort_text members)), s1)
  unfolding load_members read decode_members
  load-update_member_list members s s1 h =
      let (bytes, saved, wrote) = update_member_list-eq-ok members s s1 h in
      let key = member_list_key room_id in
      let stored : R.db_get key s1.db ≡ ok (some bytes) =
        ground (arith, R.get-put key key bytes s.db s1.db wrote, ==_refl key) in
      ground (arith, M.deserialize-serialize (sort_text members) bytes saved)

  -- Where the members can be read, and a member that is not blank is persisted without an error,
  -- the members that are read afterwards are those from before and the trimmed member.
  pub load-persist_member :
      (member : String) (old : HashSet String) (s s1 : RoomPersistence D C)
      → is_empty_str (trim member) ≡ false
      → load_members room_id s ≡ (ok old, s)
      → persist_member room_id member s ≡ (ok tt, s1)
      → (new : HashSet String) × (load_members room_id s1 ≡ (ok new, s1))
        × ((j : String) → contains j new ≡ (if trim member == j then true else contains j old))
  unfolding persist_member
  load-persist_member member old s s1 real before h =
      let members = HashSet.insert (trim member) old in
      let updates : update_member_list room_id members s ≡ (ok tt, s1) = ground arith in
      (
        collect (sort_text members),
        load-update_member_list members s s1 updates,
        λ j. ground (arith, contains-stored j members, contains-insert (trim member) j old),
      )

  -- Where the members can be read, and a member is removed without an error, the members that
  -- are read afterwards are those from before without that one.
  pub load-remove_member :
      (member : String) (old : HashSet String) (s s1 : RoomPersistence D C)
      → load_members room_id s ≡ (ok old, s)
      → remove_member room_id member s ≡ (ok tt, s1)
      → (new : HashSet String) × (load_members room_id s1 ≡ (ok new, s1))
        × ((j : String) → contains j new ≡ (if member == j then false else contains j old))
  unfolding remove_member
  load-remove_member member old s s1 before h =
      let members = HashSet.remove member old in
      let updates : update_member_list room_id members s ≡ (ok tt, s1) = ground arith in
      (
        collect (sort_text members),
        load-update_member_list members s s1 updates,
        λ j. ground (arith, contains-stored j members, contains-remove member j old),
      )
