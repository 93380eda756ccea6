-- ===== src/Upstream/Statuses.antt =====
-- Which status a caller of the gRPC service gets.
mod Outcomes
use Prim.Native.String.{len}
use syncpond.Base.{
  ℕ, String, ◌≡◌, refl, Bool, true, false, not, Option, none, some, List, arith, Result, ok, err,
  ◌↔◌, if◌then◌else◌, Bool-cases, inl, inr, ltb, ◌||◌, ◌>>=◌, fail_if, ok_or,
}
use syncpond.Base.Eq.{nat_eq, string_eq, ◌==◌, ==_iff}
use syncpond.Base.HashMap.{get, contains_key}
use syncpond.Base.HashSet.{contains}
use syncpond.Base.Text.{trim, is_empty_str}
use syncpond.Extern.Json.{Json, Bytes}
use syncpond.Extern.Rocks.{Rocks, Lru, Serde}
use syncpond.State.{RoomState, RwLock, AppState, Outcome, lock_content, room_of}
use syncpond.State.Errors.{StateError, display}
use syncpond.State.Tokens.{JwtClaims, has_reserved, may_issue, issue_with, create_room_token}
use syncpond.State.Rooms.{is_room_loaded}
use syncpond.Persistence.{BucketRecord, BucketRecords}
use syncpond.Persistence.Rooms.{Action, persist_member, remove_member}
use syncpond.Persistence.Buckets.{persist_bucket, remove_bucket}
use syncpond.Protocol.{
  CommandResponse, load_room_response, new_bucket_response, delete_bucket_response,
  new_member_response, delete_member_response,
}
use syncpond.Kernel.{
  SyncpondKernel, Edited, absent, not_loaded, edited, edit_room, edit_lock, finish_edit,
}
use syncpond.Kernel.Buckets.{
  make_bucket, drop_bucket, make_member, drop_member, handle_new_bucket, handle_delete_bucket,
  handle_new_member, handle_delete_member,
}
use syncpond.Kernel.Writing.{handle_write_fragment, handle_write_fragment_among}
use syncpond.Upstream.{
  Code, internal, failed_precondition, Status, map_room_error, respond, map_jwt_error, respond_jwt,
  intercept,
}
use syncpond.Upstream.Handler.{
  new_bucket_answer, delete_bucket_answer, new_member_answer, delete_member_answer,
  write_fragment_answer, to_text, issue_jwt,
}
use Outcomes.{
  HasStatus, >>=-HasStatus, fail_if-HasStatus, ok_or-HasStatus, lock_content-HasStatus,
  respond_jwt-IsOwn,
}
pub use Outcomes.{is_internal, IsOwn}

-- A call passes the interceptor exactly when a key is configured and the call carries it.
pub intercept_iff :
    (api_key header : Option String)
    → (intercept api_key header ≡ ok tt)
      ↔ ((key : String) × (api_key ≡ some key) × (header ≡ some key))
unfolding intercept
intercept_iff none header = (λ h. cc, λ (key, e, f). cc)
intercept_iff (some k) none = (λ h. cc, λ (key, e, f). cc)
intercept_iff (some k) (some v) = (
  λ h. elim (Bool-cases (v == k)) [
    | inl same ↦ (k, refl, ground (arith, ==_iff v k))
    | inr differ ↦ ground arith
  ],
  λ (key, e, f). ground (arith, ==_iff v k),
)

-- The room exists, its lock is not poisoned, and it is not loaded.
unfoldable pub is_unloaded : {V : Type 0} → ℕ → AppState V → Bool
unfolding room_of
is_unloaded i app = elim (room_of i app) [ err e ↦ false | ok room ↦ not room.loaded ]

-- The answer of a command that only a room that is known and not loaded refuses.
abbrev pub unless_unloaded : {V : Type 0} → ℕ → AppState V → Result (Unit {0}) Status
unless_unloaded i app =
    if is_unloaded i app then err (failed_precondition, "room_not_loaded") else ok tt

refuses : {V : Type 0} → Edited V → Bool
refuses absent = false
refuses not_loaded = true
refuses (edited app) = false

refuses-edit_room :
    {V : Type 0} (i : ℕ) (change : RoomState V → RoomState V) (app : AppState V)
    → refuses (edit_room i change app) ≡ is_unloaded i app
unfolding refuses edit_room edit_lock is_unloaded room_of
refuses-edit_room i change app = ground arith

respond-finish_edit :
    {V D C : Type 0} (open_db : ℕ → Result D String) (i : ℕ)
    (answer : CommandResponse → Result (Unit {0}) String) (response : CommandResponse)
    (action : Action D C (Unit {0})) (k : SyncpondKernel V D C) (e : Edited V)
    → answer response ≡ ok tt
    → answer (load_room_response (err "room_not_loaded")) ≡ err "room_not_loaded"
    → respond map_room_error (answer ((finish_edit open_db i response action k e).0))
      ≡ (if refuses e then err (failed_precondition, "room_not_loaded") else ok tt)
unfolding respond map_room_error finish_edit refuses
respond-finish_edit open_db i answer response action k absent done refused = rw done refl
respond-finish_edit open_db i answer response action k not_loaded done refused = rw refused refl
respond-finish_edit open_db i answer response action k (edited app) done refused = rw done refl

module _ {V D C : Type 0} ⦃R : Rocks D⦄ ⦃L : Lru BucketRecords C⦄ ⦃I : Serde (List ℕ)⦄
    ⦃B : Serde BucketRecord⦄ ⦃M : Serde (List String)⦄ (open_db : ℕ → Result D String) where
  -- NewBucket, DeleteBucket, NewMember and DeleteMember are answered FAILED_PRECONDITION for a
  -- room that is known and not loaded, and with success otherwise: also where there is no such
  -- room. They never fall back to a status of their own.
  pub respond-edit :
      (i b : ℕ) (text : String) (k : SyncpondKernel V D C)
      → (respond map_room_error (new_bucket_answer ((handle_new_bucket open_db i b text k).0))
          ≡ unless_unloaded i k.state)
        × (respond map_room_error (delete_bucket_answer ((handle_delete_bucket open_db i b k).0))
            ≡ unless_unloaded i k.state)
        × (respond map_room_error (new_member_answer ((handle_new_member open_db i text k).0))
            ≡ unless_unloaded i k.state)
        × (respond map_room_error (delete_member_answer ((handle_delete_member open_db i text k).0))
            ≡ unless_unloaded i k.state)
  unfolding new_bucket_answer delete_bucket_answer new_member_answer delete_member_answer
      handle_new_bucket handle_delete_bucket handle_new_member handle_delete_member
  respond-edit i b text k = (
    at new_bucket_answer new_bucket_response
        (persist_bucket i b (if is_empty_str (trim text) then none else some (trim text)) 0)
        (make_bucket b (trim text)) refl refl,
    at delete_bucket_answer delete_bucket_response (remove_bucket i b) (drop_bucket b) refl refl,
    at new_member_answer new_member_response (persist_member i (trim text))
        (make_member (trim text)) refl refl,
    at delete_member_answer delete_member_response (remove_member i (trim text))
        (drop_member (trim text)) refl refl,
  )
    where
      at :
          (answer : CommandResponse → Result (Unit {0}) String) (response : CommandResponse)
          (action : Action D C (Unit {0})) (change : RoomState V → RoomState V)
          → answer response ≡ ok tt
          → answer (load_room_response (err "room_not_loaded")) ≡ err "room_not_loaded"
          → respond map_room_error
              (answer ((finish_edit open_db i response action k (edit_room i change k.state)).0))
            ≡ unless_unloaded i k.state
      at answer response action change done refused = ground (
        arith,
        respond-finish_edit open_db i answer response action k (edit_room i change k.state) done
            refused,
        refuses-edit_room i change k.state,
      )

-- A WriteFragment is answered with success exactly when the room is loaded, whatever came of the
-- write itself, and FAILED_PRECONDITION otherwise, also when there is no such room.
pub respond-write_fragment :
    {V D C : Type 0} ⦃J : Json V⦄ ⦃R : Rocks D⦄ (open_db : ℕ → Result D String)
    (from_utf8_lossy : Bytes → String) (i b : ℕ) (key : String) (bytes : Bytes)
    (k : SyncpondKernel V D C)
    → respond map_room_error
        (write_fragment_answer ((handle_write_fragment open_db from_utf8_lossy i b key bytes k).0))
      ≡ (if is_room_loaded i k.state then ok tt else err (failed_precondition, "room_not_loaded"))
unfolding respond map_room_error write_fragment_answer handle_write_fragment
    handle_write_fragment_among
respond-write_fragment open_db from_utf8_lossy i b key bytes k = ground arith

module _ {V : Type 0} where
  may_issue-HasStatus :
      (i : ℕ) (sub : String) (buckets : List ℕ) (app : AppState V)
      → HasStatus (may_issue i sub buckets app)
  unfolding may_issue room_of map_jwt_error display
  may_issue-HasStatus i sub buckets app =
      >>=-HasStatus _ _ (ok_or-HasStatus app.jwt_key _ refl) λ key.
        >>=-HasStatus _ _ (fail_if-HasStatus (ltb (len key) 32) _ refl) λ _.
          >>=-HasStatus _ _ (ok_or-HasStatus app.jwt_issuer _ refl) λ _.
            >>=-HasStatus _ _ (ok_or-HasStatus app.jwt_audience _ refl) λ _.
              >>=-HasStatus _ _ (fail_if-HasStatus (not (contains_key i app.rooms)) _ refl) λ _.
                >>=-HasStatus _ _ (lock_content-HasStatus (get i app.rooms)) λ room.
                  >>=-HasStatus _ _
                    (fail_if-HasStatus
                      (is_empty_str (trim sub) || not (contains (trim sub) room.members)) _ refl)
                    λ _. >>=-HasStatus _ _ (fail_if-HasStatus (has_reserved buckets) _ refl) λ _. tt

  issue_with-HasStatus :
      (encode : JwtClaims → String → Option String) (clock i : ℕ) (sub : String) (buckets : List ℕ)
      (app : AppState V) (m : Outcome String)
      → HasStatus m
      → HasStatus ((issue_with encode clock i sub buckets app m).1)
  unfolding issue_with map_jwt_error display
  issue_with-HasStatus encode clock i sub buckets app (ok key) h = ok_or-HasStatus _ _ refl
  issue_with-HasStatus encode clock i sub buckets app (err e) h = h

  -- Every refusal of a token, for whatever reason, is answered with a status of its own: never
  -- with INTERNAL.
  pub respond_jwt-issue_jwt :
      (encode : JwtClaims → String → Option String) (clock i : ℕ) (sub : String) (buckets : List ℕ)
      (app : AppState V)
      → IsOwn (respond_jwt ((issue_jwt encode clock i sub buckets app).1))
  unfolding issue_jwt create_room_token
  respond_jwt-issue_jwt encode clock i sub buckets app = respond_jwt-IsOwn _ (
      issue_with-HasStatus encode clock i sub buckets app _ (may_issue-HasStatus i sub buckets app))
