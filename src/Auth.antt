-- ===== src/Auth.antt =====
-- server/crates/sp-downstream/src/auth.rs: the configuration of the client tokens, and the check
-- of a token. The environment, the clock and the crate jsonwebtoken's `decode` are arguments.
use Prim.Native.String
use syncpond.Base.{
  ℕ, String, ◌≡◌, Option, List, Result, ok, err, fail_if, ◌>>=◌, ◌>>◌, unwrap_or, leb, arith,
  >>=-eq-ok, ◌<◌,
}
use syncpond.Base.Text.{is_empty_str}

pub record Claims : Type 0 where
  pub sub : String
  pub room_id : Option ℕ
  pub buckets : Option (List ℕ)
  pub exp : ℕ

pub record AuthConfig : Type 0 where
  pub jwt_key : String
  pub jwt_issuer : String
  pub jwt_audience : String

-- `env` is `std::env::var`.
unfoldable pub from_env : (env : String → Option String) → Result AuthConfig String
unfolding is_empty_str
from_env env = do
  let jwt_key = unwrap_or (env "JWT_KEY") ""
  let jwt_issuer = unwrap_or (env "JWT_ISSUER") ""
  let jwt_audience = unwrap_or (env "JWT_AUDIENCE") ""
  fail_if (is_empty_str jwt_key) "JWT_KEY environment variable is required for authentication"
  fail_if (is_empty_str jwt_issuer) "JWT_ISSUER environment variable is required for authentication"
  fail_if (is_empty_str jwt_audience)
      "JWT_AUDIENCE environment variable is required for authentication"
  ok (record { jwt_key = jwt_key; jwt_issuer = jwt_issuer; jwt_audience = jwt_audience })

-- `.map_err(|e| format!("invalid_jwt:{}", e))`
map_err : Result Claims String → Result Claims String
map_err (ok claims) = ok claims
map_err (err e) = err (String.◌++◌ "invalid_jwt:" e)

-- `decode key token` is `jsonwebtoken::decode` with the algorithm HS256.
unfoldable pub validate_jwt :
    (decode : String → String → Result Claims String) (now : ℕ)
    → AuthConfig
    → String
    → Result Claims String
unfolding map_err
validate_jwt decode now config token = do
  claims ← map_err (decode config.jwt_key token)
  fail_if (leb claims.exp now) "expired_jwt"
  ok claims

map_err-eq-ok : (r : Result Claims String) {c : Claims} → map_err r ≡ ok c → r ≡ ok c
unfolding map_err
map_err-eq-ok (ok claims) h = h
map_err-eq-ok (err e) h = cc

-- A token that is accepted was decoded with the configured key, and expires after now.
pub validate_jwt-eq-ok :
    (decode : String → String → Result Claims String) (now : ℕ) (config : AuthConfig)
    (token : String) (claims : Claims)
    → validate_jwt decode now config token ≡ ok claims
    → (decode config.jwt_key token ≡ ok claims) × (now < claims.exp)
unfolding validate_jwt
validate_jwt-eq-ok decode now config token claims h =
    let (c, decoded, rest) =
      >>=-eq-ok (map_err (decode config.jwt_key token))
        (λ c. fail_if (leb c.exp now) "expired_jwt" >> ok c) h in
    let decoded_c = map_err-eq-ok (decode config.jwt_key token) decoded in ground arith
