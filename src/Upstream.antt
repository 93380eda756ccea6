-- ===== src/Upstream.antt =====
-- server/crates/sp-upstream/src/grpc.rs: the answers of the gRPC service, and its key.
pub mod Service
pub mod Handler
pub mod Statuses
pub mod Stored
use syncpond.Base.{
  ℕ, String, Bool, true, false, ◌||◌, Option, none, some, List, [], Result, ok, err, if◌then◌else◌,
}
use syncpond.Base.Eq.{string_eq, ◌==◌}
use syncpond.Extern.Json.{Bytes}

-- The codes of `tonic::Status` that the service uses.
pub data Code : Type 0 where
  not_found : Code
  invalid_argument : Code
  failed_precondition : Code
  internal : Code
  unauthenticated : Code

-- A status is its code and its message.
abbrev pub Status : Type 0
Status = Code × String

unfoldable pub map_room_error : String → Status
map_room_error e =
    if e == "room_not_loaded"
    then (failed_precondition, e)
    else if e == "room_not_found"
    then (not_found, e)
    else (internal, e)

-- `.map(…).map_err(…)` of an answer without content
unfoldable pub respond : (String → Status) → Result (Unit {0}) String → Result (Unit {0}) Status
respond status (ok _) = ok tt
respond status (err e) = err (status e)

-- The errors of `issue_jwt`
unfoldable pub map_jwt_error : String → Status
map_jwt_error e =
    if e == "room_not_found"
    then (not_found, e)
    else if e == "reserved_bucket_id" || e == "invalid_member"
    then (invalid_argument, e)
    else if e == "jwt_key_not_configured"
        || e == "jwt_key_too_short"
        || e == "jwt_issuer_audience_not_configured"
    then (failed_precondition, e)
    else (internal, e)

unfoldable pub respond_jwt : Result String String → Result String Status
unfolding map_jwt_error
respond_jwt (ok jwt) = ok jwt
respond_jwt (err e) = err (map_jwt_error e)

pub record ReadFragmentResponse : Type 0 where
  pub content : Bytes
  pub found : Bool

unfoldable pub respond_read : Result (Option Bytes) String → Result ReadFragmentResponse Status
unfolding map_room_error
respond_read (ok (some bytes)) = ok (record { content = bytes; found = true })
respond_read (ok none) = ok (record { content = []; found = false })
respond_read (err e) = err (map_room_error e)

-- The interceptor: `api_key` is the configured key, and `header` the value of
-- `x-syncpond-command-api-key`, `none` where it is missing or no text. The comparison takes the
-- same time for all texts of one length, which has no part in its result.
unfoldable pub intercept :
    (api_key : Option String) (header : Option String) → Result (Unit {0}) Status
intercept (some configured_key) (some vstr) =
    if vstr == configured_key then ok tt else err (unauthenticated, "no api key provided")
intercept api_key header = err (unauthenticated, "no api key provided")
