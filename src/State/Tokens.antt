-- ===== src/State/Tokens.antt =====
-- `create_room_token`, server/crates/sp-kernel/src/state/mod.rs. The clock and the encoder of the
-- crate jsonwebtoken are arguments.
pub mod Issued
use Prim.Native.String.{len}
use syncpond.Base.{
  ℕ, String, Bool, true, false, not, ◌||◌, Option, none, some, List, [], ◌∷◌, Result, ok, err,
  fail_if, ok_or, ◌>>=◌, ◌>>◌, ltb, max, saturating_add, if◌then◌else◌,
}
use syncpond.Base.Eq.{nat_eq, string_eq, ◌==◌}
use syncpond.Base.HashMap.{contains_key}
use syncpond.Base.HashSet.{contains, collect, insert}
use syncpond.Base.Text.{trim, is_empty_str}
use syncpond.State.{AppState, Outcome, room_of, server_only_bucket_id}
use syncpond.State.Errors.{
  StateError, room_not_found, jwt_key_not_configured, jwt_key_too_short,
  jwt_issuer_audience_not_configured, invalid_member, reserved_bucket_id,
}

pub record JwtClaims : Type 0 where
  pub sub : String
  pub room_id : ℕ
  pub buckets : List ℕ
  pub exp : ℕ
  pub iss : Option String
  pub aud : Option String

-- `for id in buckets.iter() { if *id == SERVER_ONLY_BUCKET_ID { … } }`
unfoldable pub has_reserved : List ℕ → Bool
has_reserved [] = false
has_reserved (id ∷ buckets) = id == server_only_bucket_id || has_reserved buckets

-- The second of issue: the clock's, but later than that of the last token.
unfoldable pub issue_time : ℕ → Option ℕ → ℕ
issue_time now none = now
issue_time now (some last) = max now (saturating_add last 1)

module _ {V : Type 0} where
  -- The checks before anything is changed; the result is the signing key.
  unfoldable pub may_issue : ℕ → String → List ℕ → AppState V → Outcome String
  unfolding contains_key room_of trim is_empty_str contains has_reserved
  may_issue room_id sub buckets app = do
    key ← ok_or app.jwt_key jwt_key_not_configured
    fail_if (ltb (len key) 32) jwt_key_too_short
    issuer ← ok_or app.jwt_issuer jwt_issuer_audience_not_configured
    audience ← ok_or app.jwt_audience jwt_issuer_audience_not_configured
    fail_if (not (contains_key room_id app.rooms)) room_not_found
    room ← room_of room_id app
    let sub_trimmed = trim sub
    fail_if (is_empty_str sub_trimmed || not (contains sub_trimmed room.members)) invalid_member
    fail_if (has_reserved buckets) reserved_bucket_id
    ok key

  unfoldable pub claims_at : ℕ → String → List ℕ → ℕ → AppState V → JwtClaims
  unfolding trim insert collect
  claims_at room_id sub buckets now app = record {
    sub = trim sub;
    room_id = room_id;
    buckets = insert 0 (collect buckets);
    exp = saturating_add now app.jwt_ttl_seconds;
    iss = app.jwt_issuer;
    aud = app.jwt_audience;
  }

  -- After the checks the second of issue is recorded, whatever the encoder says.
  unfoldable pub issue_with :
      (JwtClaims → String → Option String)
      → ℕ
      → ℕ
      → String
      → List ℕ
      → AppState V
      → Outcome String
      → AppState V × Outcome String
  unfolding issue_time claims_at
  issue_with encode clock room_id sub buckets app (err e) = (app, err e)
  issue_with encode clock room_id sub buckets app (ok key) =
      let now = issue_time clock app.last_jwt_issue_seconds in
      (
        record app { last_jwt_issue_seconds = some now },
        ok_or (encode (claims_at room_id sub buckets now app) key) jwt_key_not_configured,
      )

  -- `encode claims key` is `jsonwebtoken::encode`, and `clock` the seconds since the epoch.
  unfoldable pub create_room_token :
      (encode : JwtClaims → String → Option String) (clock : ℕ) (room_id : ℕ) (sub : String)
      (buckets : List ℕ)
      → AppState V
      → AppState V × Outcome String
  unfolding may_issue issue_with
  create_room_token encode clock room_id sub buckets app =
      issue_with encode clock room_id sub buckets app (may_issue room_id sub buckets app)
