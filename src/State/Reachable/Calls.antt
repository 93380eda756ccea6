-- ===== src/State/Reachable/Calls.antt =====
-- Every call keeps the invariant of the application.
use syncpond.Base.{
  ℕ, suc, ◌<◌, String, ◌≡◌, refl, Bool, true, false, Option, some, List, arith, ok, err, fail_if,
  ◌>>◌, u64_mod,
}
use syncpond.Base.Eq.{nat_eq, string_eq}
use syncpond.Base.HashMap.{HashMap}
use syncpond.Base.HashMap.Unique.{IsMap, Values}
use syncpond.Base.HashSet.{HashSet}
use syncpond.Base.Text.{trim, is_empty_str}
use syncpond.Extern.Json.{Json}
use syncpond.State.{AppState, Outcome, update_room, after}
use syncpond.State.Config.{
  set_jwt_key, set_jwt_ttl, set_jwt_issuer, set_jwt_audience, set_command_api_key, set_save_dir,
}
use syncpond.State.Rooms.{BucketDef, load_into, unloaded, load_room_data, unload_room}
use syncpond.State.Labels.{is_invalid_label}
use syncpond.State.Buckets.{label_bucket, set_bucket_label, set_bucket_flags, set_bucket_flag_bit}
use syncpond.State.Members.{insert_member, add_member, remove_member}
use syncpond.State.Fragments.{set_fragment, del_fragment}
use syncpond.State.Transactions.{tx_begin, tx_end, tx_abort}
use syncpond.State.Tokens.{JwtClaims, may_issue, issue_with, create_room_token}
use syncpond.State.Errors.{StateError, command_api_key_invalid, label_invalid}
use syncpond.State.Reachable.{Call}
use syncpond.State.Reachable
use syncpond.State.Reachable.RoomCalls.{
  Keeps, set_in_room-Keeps, del_in_room-Keeps, begin_in_room-Keeps, abort_in_room-Keeps,
  end_in_room-Keeps, label_bucket-Keeps, flag_bucket-Keeps, change_bit-Keeps, insert_member-Keeps,
  drop_member-Keeps,
}
use syncpond.State.Reachable.Loading.{load_into-RoomInv, unloaded-RoomInv}
use syncpond.State.Reachable.AppInvariant.{AppInv, AppInv-mono, update_room-AppInv}
use syncpond.State.Reachable.Registry.{
  delete_room-AppInv, create_room-AppInv, set_room_label-AppInv, AppInv-same,
}

module _ {V : Type 0} where
  guarded-AppInv :
      (n : ℕ) (refused : Bool) (e : StateError) (call : Outcome (AppState V)) (app : AppState V)
      → AppInv n app
      → AppInv (suc n) (after app call)
      → AppInv (suc n) (after app (fail_if refused e >> call))
  guarded-AppInv n true e call app h k = AppInv-mono n app h
  guarded-AppInv n false e call app h k = k

module _ {V : Type 0} ⦃J : Json V⦄ where
  load_into-Keeps :
      (defs : List BucketDef) (members : HashSet String) (fragments : HashMap ℕ (HashMap String V))
      → Values IsMap fragments
      → Keeps (λ room. ok (load_into defs members fragments room))
  load_into-Keeps defs members fragments maps n room room' b e inv =
      let same : room' ≡ load_into defs members fragments room = cc in
      rw same (load_into-RoomInv n defs members fragments room maps inv)

  unloaded-Keeps : Keeps {V = V} (λ room. ok (unloaded room))
  unloaded-Keeps n room room' b e inv =
      let same : room' ≡ unloaded room = cc in rw same (unloaded-RoomInv n room inv)

  token-AppInv :
      (n : ℕ) (encode : JwtClaims → String → Option String) (clock i : ℕ) (sub : String)
      (buckets : List ℕ) (app : AppState V) (checked : Outcome String)
      → AppInv n app
      → AppInv n (issue_with encode clock i sub buckets app checked).0
  unfolding issue_with
  token-AppInv n encode clock i sub buckets app (ok key) h = AppInv-same n app _ refl refl refl h
  token-AppInv n encode clock i sub buckets app (err e) h = h

  key-AppInv :
      (n : ℕ) (key : String) (app : AppState V)
      → AppInv n app
      → AppInv (suc n) (after app (set_command_api_key key app))
  unfolding set_command_api_key
  key-AppInv n key app h =
      let app' : AppState V = record app { command_api_key = some key } in
      guarded-AppInv n (is_empty_str (trim key)) command_api_key_invalid (ok app') app h
        (AppInv-mono n app' (AppInv-same n app app' refl refl refl h))

  -- Each call keeps the invariant, as the count of calls goes up.
  pub step-AppInv :
      (n : ℕ) (c : Call V) (app : AppState V)
      → suc (suc n) < u64_mod
      → AppInv n app
      → AppInv (suc n) (Reachable.step c app)
  unfolding Reachable.step load_room_data unload_room set_bucket_label set_bucket_flags
      set_bucket_flag_bit add_member remove_member set_fragment del_fragment tx_begin tx_end
      tx_abort create_room_token set_jwt_key set_jwt_ttl set_jwt_issuer set_jwt_audience
      set_save_dir
  step-AppInv n Call.creates_room app b h = create_room-AppInv n app b h
  step-AppInv n (Call.loads_room i defs members fragments maps) app b h =
      update_room-AppInv n i _ app (omega arith) (load_into-Keeps defs members fragments maps) h
  step-AppInv n (Call.unloads_room i) app b h =
      update_room-AppInv n i _ app (omega arith) unloaded-Keeps h
  step-AppInv n (Call.deletes_room i) app b h = AppInv-mono n _ (delete_room-AppInv n i app h)
  step-AppInv n (Call.labels_room i label) app b h =
      AppInv-mono n _ (set_room_label-AppInv n i label app h)
  step-AppInv n (Call.labels_bucket i c label) app b h =
      guarded-AppInv n (is_invalid_label (trim label)) label_invalid
        (update_room i (label_bucket c (trim label)) app) app h
        (update_room-AppInv n i _ app (omega arith) (label_bucket-Keeps c (trim label)) h)
  step-AppInv n (Call.flags_bucket i c flags) app b h =
      update_room-AppInv n i _ app (omega arith) (flag_bucket-Keeps c flags) h
  step-AppInv n (Call.changes_flag i c mask on) app b h =
      update_room-AppInv n i _ app (omega arith) (change_bit-Keeps c mask on) h
  step-AppInv n (Call.adds_member i member) app b h =
      guarded-AppInv n (is_invalid_label (trim member)) label_invalid
        (update_room i (insert_member (trim member)) app) app h
        (update_room-AppInv n i _ app (omega arith) (insert_member-Keeps (trim member)) h)
  step-AppInv n (Call.removes_member i member) app b h =
      update_room-AppInv n i _ app (omega arith) (drop_member-Keeps member) h
  step-AppInv n (Call.sets_fragment i c k v) app b h =
      update_room-AppInv n i _ app (omega arith) (set_in_room-Keeps c k v) h
  step-AppInv n (Call.dels_fragment i c k) app b h =
      update_room-AppInv n i _ app (omega arith) (del_in_room-Keeps c k) h
  step-AppInv n (Call.begins_tx i) app b h =
      update_room-AppInv n i _ app (omega arith) begin_in_room-Keeps h
  step-AppInv n (Call.ends_tx i) app b h =
      update_room-AppInv n i _ app (omega arith) end_in_room-Keeps h
  step-AppInv n (Call.aborts_tx i) app b h =
      update_room-AppInv n i _ app (omega arith) abort_in_room-Keeps h
  step-AppInv n (Call.issues_token encode clock i sub buckets) app b h =
      AppInv-mono n _
        (token-AppInv n encode clock i sub buckets app (may_issue i sub buckets app) h)
  step-AppInv n (Call.sets_command_api_key key) app b h = key-AppInv n key app h
  step-AppInv n (Call.sets_jwt_key key) app b h =
      AppInv-mono n _ (AppInv-same n app _ refl refl refl h)
  step-AppInv n (Call.sets_jwt_ttl seconds) app b h =
      AppInv-mono n _ (AppInv-same n app _ refl refl refl h)
  step-AppInv n (Call.sets_jwt_issuer issuer) app b h =
      AppInv-mono n _ (AppInv-same n app _ refl refl refl h)
  step-AppInv n (Call.sets_jwt_audience audience) app b h =
      AppInv-mono n _ (AppInv-same n app _ refl refl refl h)
  step-AppInv n (Call.sets_save_dir dir) app b h =
      AppInv-mono n _ (AppInv-same n app _ refl refl refl h)
