-- ===== src/State/Reachable.antt =====
-- The states that `AppState` can come to: any sequence of calls of its methods, from `new`.
pub mod RoomInvariant
pub mod RoomCalls
pub mod Loading
pub mod AppInvariant
pub mod Registry
pub mod Calls
pub mod Runs
use syncpond.Base.{ℕ, String, Bool, Option, List, [], ◌∷◌}
use syncpond.Base.Eq.{nat_eq, string_eq}
use syncpond.Base.HashMap.{HashMap}
use syncpond.Base.HashMap.Unique.{IsMap, Values}
use syncpond.Base.HashSet.{HashSet}
use syncpond.Extern.Json.{Json}
use syncpond.State.{AppState, after}
use syncpond.State.Config.{
  set_jwt_key, set_jwt_ttl, set_jwt_issuer, set_jwt_audience, set_command_api_key, set_save_dir,
}
use syncpond.State.Rooms.{BucketDef, create_room, load_room_data, unload_room, delete_room}
use syncpond.State.Labels.{set_room_label}
use syncpond.State.Buckets.{set_bucket_label, set_bucket_flags, set_bucket_flag_bit}
use syncpond.State.Members.{add_member, remove_member}
use syncpond.State.Fragments.{set_fragment, del_fragment}
use syncpond.State.Transactions.{tx_begin, tx_end, tx_abort}
use syncpond.State.Tokens.{JwtClaims, create_room_token}

-- A call of a method that changes the state, with its arguments. The maps that `load_room_data`
-- is given have each key once, as `HashMap`s do.
pub data Call (V : Type 0) : Type 0 where
  creates_room : Call V
  loads_room :
      ℕ
      → List BucketDef
      → HashSet String
      → (fragments : HashMap ℕ (HashMap String V)) → Values IsMap fragments
      → Call V
  unloads_room : ℕ → Call V
  deletes_room : ℕ → Call V
  labels_room : ℕ → String → Call V
  labels_bucket : ℕ → ℕ → String → Call V
  flags_bucket : ℕ → ℕ → ℕ → Call V
  changes_flag : ℕ → ℕ → ℕ → Bool → Call V
  adds_member : ℕ → String → Call V
  removes_member : ℕ → String → Call V
  sets_fragment : ℕ → ℕ → String → V → Call V
  dels_fragment : ℕ → ℕ → String → Call V
  begins_tx : ℕ → Call V
  ends_tx : ℕ → Call V
  aborts_tx : ℕ → Call V
  issues_token : (JwtClaims → String → Option String) → ℕ → ℕ → String → List ℕ → Call V
  sets_jwt_key : String → Call V
  sets_jwt_ttl : ℕ → Call V
  sets_jwt_issuer : String → Call V
  sets_jwt_audience : String → Call V
  sets_command_api_key : String → Call V
  sets_save_dir : String → Call V

module _ {V : Type 0} ⦃J : Json V⦄ where
  unfoldable pub step : Call V → AppState V → AppState V
  step creates_room app = (create_room app).1
  step (loads_room i defs members fragments _) app =
      after app (load_room_data i defs members fragments app)
  step (unloads_room i) app = after app (unload_room i app)
  step (deletes_room i) app = after app (delete_room i app)
  step (labels_room i label) app = after app (set_room_label i label app)
  step (labels_bucket i b label) app = after app (set_bucket_label i b label app)
  step (flags_bucket i b flags) app = after app (set_bucket_flags i b flags app)
  step (changes_flag i b mask on) app = after app (set_bucket_flag_bit i b mask on app)
  step (adds_member i member) app = after app (add_member i member app)
  step (removes_member i member) app = after app (remove_member i member app)
  step (sets_fragment i b k v) app = after app (set_fragment i b k v app)
  step (dels_fragment i b k) app = after app (del_fragment i b k app)
  step (begins_tx i) app = after app (tx_begin i app)
  step (ends_tx i) app = after app (tx_end i app)
  step (aborts_tx i) app = after app (tx_abort i app)
  step (issues_token encode clock i sub buckets) app =
      (create_room_token encode clock i sub buckets app).0
  step (sets_jwt_key key) app = set_jwt_key key app
  step (sets_jwt_ttl seconds) app = set_jwt_ttl seconds app
  step (sets_jwt_issuer issuer) app = set_jwt_issuer issuer app
  step (sets_jwt_audience audience) app = set_jwt_audience audience app
  step (sets_command_api_key key) app = after app (set_command_api_key key app)
  step (sets_save_dir dir) app = set_save_dir dir app

  unfoldable pub run : List (Call V) → AppState V → AppState V
  unfolding step
  run [] app = app
  run (c ∷ cs) app = run cs (step c app)
