-- ===== src/State/Buckets/Settings.antt =====
-- The label and the flags that a bucket has after they were set.
use Prim.Native.Nat.{bit_and, bit_or}
use syncpond.Base.{
  ◌-◌, if◌then◌else◌, ℕ, String, ◌≡◌, ◌∙◌, ap, refl, Bool, false, some, arith, ok, unwrap_or,
  Bool-cases, inl, inr, fail_if, >>=-eq-ok, ◌⊎◌,
}
use syncpond.Base.Eq.{nat_eq, ◌==◌, ==_iff}
use syncpond.Base.HashMap.{get, insert, get-insert, get-insert_self}
use syncpond.Base.Text.{trim}
use syncpond.State.{RoomState, AppState, Outcome, room_of, put_room}
use syncpond.State.Access.{room_of-put_room, room_of-put_room_self, update_room-eq-ok}
use syncpond.State.Errors.{label_invalid}
use syncpond.State.Labels.{is_invalid_label}
use syncpond.State.Buckets.{
  with_bit, existing_bucket, label_bucket, set_bucket_label, label_in, get_bucket_label,
  flag_bucket, set_bucket_flags, get_bucket_flags, change_bit, set_bucket_flag_bit,
}

-- What can be set of a bucket.
pub data BucketSetting : Type 0 where
  labelled : (label : String) → BucketSetting
  flagged : (flags : ℕ) → BucketSetting
  flag_changed : (flag_mask : ℕ) (enabled : Bool) → BucketSetting

module _ {V : Type 0} (i b : ℕ) (app app' : AppState V) where
  -- The flags of all buckets after those of one bucket of one room were set.
  abbrev pub Flags : ℕ → Type 0
  Flags flags =
      (get_bucket_flags i b app' ≡ ok flags)
      × ((j c : ℕ)
          → (((i == j) ≡ false) ⊎ ((b == c) ≡ false))
          → get_bucket_flags j c app' ≡ get_bucket_flags j c app)

  put_others :
      (j c flags : ℕ) (room : RoomState V)
      → room_of i app ≡ ok room
      → ((i == j) ≡ false) ⊎ ((b == c) ≡ false)
      → get_bucket_flags j c
          (put_room i (record room { bucket_flags = insert b flags room.bucket_flags }) app)
        ≡ get_bucket_flags j c app
  unfolding get_bucket_flags existing_bucket
  put_others j c flags room found differ =
      let next : RoomState V = record room { bucket_flags = insert b flags room.bucket_flags } in
      elim (Bool-cases (i == j)) [
        | inr elsewhere ↦ ground (arith, room_of-put_room i j next app)
        | inl here ↦
            let is_j : i ≡ j = (==_iff i j).0 here in
            let at_j : room_of j app ≡ ok room = rw (← is_j) found in
            let c_differs : (b == c) ≡ false = elim differ [ inl other ↦ cc | inr other ↦ other ] in
            ground (arith, room_of-put_room i j next app, get-insert b c flags room.bucket_flags)
      ]

  -- The flags of a bucket that can be asked for
  put-Flags :
      (flags : ℕ) (room : RoomState V)
      → room_of i app ≡ ok room
      → existing_bucket b room ≡ ok tt
      → app' ≡ put_room i (record room { bucket_flags = insert b flags room.bucket_flags }) app
      → Flags flags
  unfolding get_bucket_flags existing_bucket
  put-Flags flags room found there same =
      let next : RoomState V = record room { bucket_flags = insert b flags room.bucket_flags } in
      rw same (
        ground (arith, room_of-put_room_self i next app, get-insert_self b flags room.bucket_flags),
        λ j c differ. put_others j c flags room found differ,
      )

  -- The labels of all buckets after that of one bucket of one room was set.
  abbrev pub Labels : String → Type 0
  Labels label =
      (get_bucket_label i b app' ≡ some label)
      × ((j c : ℕ)
          → ((i == j) ≡ false) ⊎ ((b == c) ≡ false)
          → get_bucket_label j c app' ≡ get_bucket_label j c app)

  put_other_labels :
      (j c : ℕ) (label : String) (room : RoomState V)
      → room_of i app ≡ ok room
      → ((i == j) ≡ false) ⊎ ((b == c) ≡ false)
      → get_bucket_label j c
          (put_room i (record room { bucket_labels = insert b label room.bucket_labels }) app)
        ≡ get_bucket_label j c app
  unfolding get_bucket_label label_in
  put_other_labels j c label room found differ =
      let next : RoomState V = record room { bucket_labels = insert b label room.bucket_labels } in
      elim (Bool-cases (i == j)) [
        | inr elsewhere ↦ ground (arith, room_of-put_room i j next app)
        | inl here ↦
            let is_j : i ≡ j = (==_iff i j).0 here in
            let at_j : room_of j app ≡ ok room = rw (← is_j) found in
            let c_differs : (b == c) ≡ false = elim differ [ inl other ↦ cc | inr other ↦ other ] in
            ground (arith, room_of-put_room i j next app, get-insert b c label room.bucket_labels)
      ]

  put-Labels :
      (label : String) (room : RoomState V)
      → room_of i app ≡ ok room
      → app' ≡ put_room i (record room { bucket_labels = insert b label room.bucket_labels }) app
      → Labels label
  unfolding get_bucket_label label_in
  put-Labels label room found same =
      let next : RoomState V = record room { bucket_labels = insert b label room.bucket_labels } in
      rw same (
        ground
            (arith, room_of-put_room_self i next app, get-insert_self b label room.bucket_labels),
        λ j c differ. put_other_labels j c label room found differ,
      )

  abbrev pub do_setting : BucketSetting → Outcome (AppState V)
  do_setting (labelled label) = set_bucket_label i b label app
  do_setting (flagged flags) = set_bucket_flags i b flags app
  do_setting (flag_changed flag_mask enabled) = set_bucket_flag_bit i b flag_mask enabled app

  -- What is read after the setting.
  abbrev pub IsRead : BucketSetting → Type 0
  IsRead (labelled label) = Labels (trim label)
  IsRead (flagged flags) = Flags flags
  IsRead (flag_changed flag_mask enabled) =
      (old : ℕ) × (get_bucket_flags i b app ≡ ok old)
      × Flags (if enabled then bit_or old flag_mask else bit_and old (4294967295 - flag_mask))

  -- A setting that succeeds is what is read next of the bucket: a label without the blanks around
  -- it, all the flags, or the flags from before, or-ed with the mask where the bits are enabled and
  -- and-ed with its complement in 32 bits where they are not. The labels, or the flags, of all other buckets of all rooms are read as before.
  pub do_setting-IsRead : (setting : BucketSetting) → do_setting setting ≡ ok app' → IsRead setting
  unfolding set_bucket_label label_bucket set_bucket_flags flag_bucket set_bucket_flag_bit
      change_bit get_bucket_flags with_bit
  do_setting-IsRead (labelled label) h =
      let (_, valid, rest) =
        >>=-eq-ok (fail_if (is_invalid_label (trim label)) label_invalid) _ h in
      let (room, next, found, changed, same) =
        update_room-eq-ok i (label_bucket b (trim label)) app app' rest in
      let (_, there, is_next) = >>=-eq-ok (existing_bucket b room) _ changed in
      put-Labels (trim label) room found (same ∙ ap (λ r. put_room i r app) (ground arith))
  do_setting-IsRead (flagged flags) h =
      let (room, next, found, changed, same) =
        update_room-eq-ok i (flag_bucket b flags) app app' h in
      let (_, there, is_next) = >>=-eq-ok (existing_bucket b room) _ changed in
      put-Flags flags room found there (same ∙ ap (λ r. put_room i r app) (ground arith))
  do_setting-IsRead (flag_changed flag_mask enabled) h =
      let (room, next, found, changed, same) =
        update_room-eq-ok i (change_bit b flag_mask enabled) app app' h in
      let (_, there, is_next) = >>=-eq-ok (existing_bucket b room) _ changed in
      let old = unwrap_or (get b room.bucket_flags) 0 in
      (
        old,
        rw (found, there) refl,
        put-Flags (with_bit old flag_mask enabled) room found there
            (same ∙ ap (λ r. put_room i r app) (ground arith)),
      )
