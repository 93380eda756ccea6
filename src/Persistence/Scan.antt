-- ===== src/Persistence/Scan.antt =====
-- What the loading of fragments finds in a store; `load_all_fragments` of
-- server/crates/sp-kernel/src/persistance/mod.rs.
use syncpond.Base.{
  ℕ, String, ◌≡◌, refl, ◌&&◌, Option, none, some, [], ◌∷◌, arith, ok, err, if◌then◌else◌, unwrap_or,
  Bool-cases, inl, inr, sym,
}
use syncpond.Base.Eq.{nat_eq, string_eq, ◌==◌, ==_iff, ==_refl}
use syncpond.Base.HashMap.{HashMap, get, get-insert}
use syncpond.Extern.Json.{Json, Bytes}
use syncpond.Extern.Rocks.{Rocks, Items, Has, IsReadable}
use syncpond.Persistence.Rooms.{
  RoomPersistence, fragment_of, file_fragment, collect_fragments, load_all_fragments,
}

module _ {V : Type 0} where
  -- The value of a fragment among those that were found
  unfoldable pub value_at : ℕ → String → HashMap ℕ (HashMap String V) → Option V
  unfolding get
  value_at b key found = get key (unwrap_or (get b found) [])

module _ {V : Type 0} ⦃J : Json V⦄ (b : ℕ) (key : String) where
  value_at-file_fragment :
      (c : ℕ) (j : String) (u : V) (out : HashMap ℕ (HashMap String V))
      → value_at b key (file_fragment (some (c, j, u)) out)
        ≡ (if c == b && j == key then some u else value_at b key out)
  unfolding value_at file_fragment
  value_at-file_fragment c j u out =
      let filed = unwrap_or (get c out) [] in
      ground (arith, ==_iff c b, get-insert c b ((j, u) ∷ filed) out, get-insert j key u filed)

  module _ (v : V) where
    -- What reads as this fragment has this value.
    abbrev Agrees : Option (ℕ × String × V) → Type 0
    Agrees o = (u : V) → o ≡ some (b, key, u) → u ≡ v

    abbrev pub Agree : Items → Type 0
    Agree items = (j : String) (w : Bytes) → Has j w items → Agrees (fragment_of (some j) w)

    -- The loading succeeds, with this value of the fragment.
    abbrev Finds : Items → HashMap ℕ (HashMap String V) → Type 0
    Finds items out =
        (found : HashMap ℕ (HashMap String V)) × (collect_fragments items out ≡ ok found)
        × (value_at b key found ≡ some v)

    file_fragment-keeps :
        (o : Option (ℕ × String × V)) (out : HashMap ℕ (HashMap String V))
        → Agrees o
        → value_at b key out ≡ some v
        → value_at b key (file_fragment o out) ≡ some v
    unfolding file_fragment
    file_fragment-keeps none out agrees before = before
    file_fragment-keeps (some (c, j, u)) out agrees before =
        elim (Bool-cases (c == b && j == key)) [
          | inr other ↦ ground (arith, value_at-file_fragment c j u out)
          | inl this ↦
              let same_bucket : c ≡ b = ground (arith, ==_iff c b) in
              let same_key : j ≡ key = (==_iff j key).0 (ground arith) in
              let same : u ≡ v = agrees u (rw (same_bucket, same_key) refl) in
              ground (arith, value_at-file_fragment c j u out)
        ]

    collect_fragments-keeps :
        (items : Items) (out : HashMap ℕ (HashMap String V))
        → IsReadable items
        → Agree items
        → value_at b key out ≡ some v
        → Finds items out
    unfolding collect_fragments
    collect_fragments-keeps [] out fine agree before = (out, refl, before)
    collect_fragments-keeps (err e ∷ items) out fine agree before = elim fine [ ]
    collect_fragments-keeps (ok (none, w) ∷ items) out fine agree before =
        unfold fragment_of in
        unfold file_fragment in
        collect_fragments-keeps items out fine (λ j w' h. agree j w' (inr h)) before
    collect_fragments-keeps (ok (some j, w) ∷ items) out fine agree before =
        collect_fragments-keeps items (file_fragment (fragment_of (some j) w) out) fine
          (λ j' w' h. agree j' w' (inr h))
          (file_fragment-keeps (fragment_of (some j) w) out (agree j w (inl refl)) before)

    filed_last :
        (out : HashMap ℕ (HashMap String V))
        → value_at b key (file_fragment (some (b, key, v)) out) ≡ some v
    filed_last out = ground (arith, value_at-file_fragment b key v out, ==_refl b, ==_refl key)

    collect_fragments-Finds :
        (k : String) (stored : Bytes) (items : Items) (out : HashMap ℕ (HashMap String V))
        → fragment_of (some k) stored ≡ some (b, key, v)
        → IsReadable items
        → Agree items
        → Has k stored items
        → Finds items out
    unfolding collect_fragments
    collect_fragments-Finds k stored [] out reads fine agree there = elim there [ ]
    collect_fragments-Finds k stored (err e ∷ items) out reads fine agree there = elim fine [ ]
    collect_fragments-Finds k stored (ok (j, w) ∷ items) out reads fine agree (inr there) =
        collect_fragments-Finds k stored items (file_fragment (fragment_of j w) out) reads fine
          (λ j' w' h. agree j' w' (inr h)) there
    collect_fragments-Finds k stored (ok (j, w) ∷ items) out reads fine agree (inl here) =
        let is_some_k : j ≡ some k = cc in
        let is_stored : w ≡ stored = cc in
        let read : fragment_of j w ≡ some (b, key, v) = rw (is_some_k, is_stored) reads in
        collect_fragments-keeps items (file_fragment (fragment_of j w) out) fine
          (λ j' w' h. agree j' w' (inr h)) (rw read (filed_last out))

-- The key is the only one in the store whose entry reads as that fragment.
abbrev pub IsAlone :
    (V : Type 0) {D : Type 0} ⦃J : Json V⦄ ⦃R : Rocks D⦄ → ℕ → String → (k : String) → D → Type 0
IsAlone V ⦃R = R⦄ b key k db =
    (j : String) (w : Bytes) (u : V)
    → R.db_get j db ≡ ok (some w)
    → fragment_of (some j) w ≡ some (b, key, u)
    → j ≡ k

module _ {V D : Type 0} ⦃J : Json V⦄ ⦃R : Rocks D⦄ where
  -- A key stays alone when its own entry is written.
  pub IsAlone-put :
      (b : ℕ) (key k : String) (bytes : Bytes) (db db1 : D)
      → R.db_put k bytes db ≡ (ok tt, db1)
      → IsAlone V b key k db
      → IsAlone V b key k db1
  IsAlone-put b key k bytes db db1 stored alone j w u at_j read = elim (Bool-cases (k == j)) [
    | inl same ↦ sym ((==_iff k j).0 same)
    | inr other ↦ alone j w u (ground (arith, R.get-put j k bytes db db1 stored)) read
  ]

module _ {V D C : Type 0} ⦃J : Json V⦄ ⦃R : Rocks D⦄ where
  pub load_all_fragments-finds :
      (b : ℕ) (key : String) (v : V) (k : String) (stored : Bytes) (s : RoomPersistence D C)
      → fragment_of (some k) stored ≡ some (b, key, v)
      → R.db_get k s.db ≡ ok (some stored)
      → IsReadable (R.iterator s.db)
      → IsAlone V b key k s.db
      → (found : HashMap ℕ (HashMap String V)) × (load_all_fragments s ≡ (ok found, s))
        × (value_at b key found ≡ some v)
  unfolding load_all_fragments
  load_all_fragments-finds b key v k stored s reads there fine alone =
      let agree : Agree b key v (R.iterator s.db) = λ j w h u read.
        let at_j = R.iterator_sound j w s.db h in
        let same = alone j w u at_j read in
        let at_k : R.db_get k s.db ≡ ok (some w) = rw (← same) at_j in
        let is_stored : w ≡ stored = ground arith in
        let both : fragment_of (some k) stored ≡ some (b, key, u) = rw (← same, ← is_stored) read in
        ground arith in
      let listed = R.iterator_complete k stored s.db fine there in
      let (found, collected, at_key) =
        collect_fragments-Finds b key v k stored (R.iterator s.db) [] reads fine agree listed in
      (found, rw collected refl, at_key)
