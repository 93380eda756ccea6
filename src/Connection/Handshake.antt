-- ===== src/Connection/Handshake.antt =====
-- Who gets through the handshake, and with which rights.
use syncpond.Base.{
  ℕ, ◌<◌, String, ◌≡◌, sym, not, ◌&&◌, ◌||◌, Option, none, some, List, [], arith, Result, ok,
  Result-cases, Option-cases, inl, inr, unwrap_or,
}
use syncpond.Base.Eq.{nat_eq, ◌==◌, ==_iff}
use syncpond.Base.HashSet
use syncpond.Base.HashSet.{
  HashSet, contains, collect, remove, contains-insert, contains-remove, contains-collect,
}
use syncpond.Extern.Wire.{Wire, Payload, auth, auth_ok, auth_error, data_update, client_command}
use syncpond.Auth.{Claims, AuthConfig, from_env, validate_jwt, validate_jwt-eq-ok}
use syncpond.Connection.{
  Received, binary, text, ping, pong, close, other, failed, ended, admitted, allowed_of, room_claim,
  admit_claims, authenticate, admit_payload, first_frame,
}

-- A connection may see a bucket that is not the reserved one and is 0 or in the claims.
pub contains-allowed_of :
    (reserved b : ℕ) (buckets : Option (List ℕ))
    → contains b (allowed_of reserved buckets)
      ≡ (not (reserved == b) && (b == 0 || contains b (unwrap_or buckets [])))
unfolding allowed_of
contains-allowed_of reserved b buckets =
    let claimed = collect (unwrap_or buckets []) in
    ground (
      arith,
      contains-remove reserved b (HashSet.insert 0 claimed),
      contains-insert 0 b claimed,
      contains-collect b (unwrap_or buckets []),
      ==_iff b 0,
    )

from_env-key :
    (env : String → Option String) (config : AuthConfig)
    → from_env env ≡ ok config
    → config.jwt_key ≡ unwrap_or (env "JWT_KEY") ""
unfolding from_env
from_env-key env config h = ground arith

-- What a client proved to be let into a room with rights to some buckets.
pub record IsAuthorized (env : String → Option String)
    (decode : String → String → Result Claims String) (now reserved : ℕ) (room : ℕ)
    (allowed : HashSet ℕ) (jwt : String) (claims : Claims) : Type 0 where
  pub signed : decode (unwrap_or (env "JWT_KEY") "") jwt ≡ ok claims
  pub lives : now < claims.exp
  pub in_room : claims.room_id ≡ some room
  pub real : 0 < room
  pub rights :
      (b : ℕ)
      → contains b allowed
        ≡ (not (reserved == b) && (b == 0 || contains b (unwrap_or claims.buckets [])))

admit_claims-admitted :
    (reserved : ℕ) (claims : Claims) (room : ℕ) (allowed : HashSet ℕ)
    → admit_claims reserved claims ≡ admitted room allowed
    → (claims.room_id ≡ some room) × (0 < room) × (allowed ≡ allowed_of reserved claims.buckets)
unfolding admit_claims room_claim
admit_claims-admitted reserved claims room allowed h = elim (Option-cases claims.room_id) [
  | inl none_at ↦ ground arith
  | inr (id, at_id) ↦ ground arith
]

authorized :
    (env : String → Option String) (decode : String → String → Result Claims String)
    (now reserved : ℕ) (jwt : String) (room : ℕ) (allowed : HashSet ℕ) (config : AuthConfig)
    (claims : Claims)
    → from_env env ≡ ok config
    → validate_jwt decode now config jwt ≡ ok claims
    → admit_claims reserved claims ≡ admitted room allowed
    → IsAuthorized env decode now reserved room allowed jwt claims
authorized env decode now reserved jwt room allowed config claims configured valid admits =
    let (decoded, lives) = validate_jwt-eq-ok decode now config jwt claims valid in
    let (in_room, real, rights) = admit_claims-admitted reserved claims room allowed admits in
    record {
      signed = rw (sym (from_env-key env config configured)) decoded;
      lives = lives;
      in_room = in_room;
      real = real;
      rights = λ b. rw rights (contains-allowed_of reserved b claims.buckets);
    }

module _ (env : String → Option String) (decode : String → String → Result Claims String) (now : ℕ)
    (reserved : ℕ) where
  authenticate-admitted :
      (jwt : String) (room : ℕ) (allowed : HashSet ℕ)
      → authenticate env decode now reserved jwt ≡ admitted room allowed
      → (claims : Claims) × IsAuthorized env decode now reserved room allowed jwt claims
  unfolding authenticate
  authenticate-admitted jwt room allowed h = elim (Result-cases (from_env env)) [
    | inr (e, no_config) ↦ ground arith
    | inl (config, configured) ↦ elim (Result-cases (validate_jwt decode now config jwt)) [
      | inr (e, invalid) ↦ ground arith
      | inl (claims, valid) ↦
          let admits : admit_claims reserved claims ≡ admitted room allowed = ground arith in
          (
            claims,
            authorized env decode now reserved jwt room allowed config claims configured valid
                admits,
          )
    ]
  ]

  admit_payload-IsAuthorized :
      (p : Option Payload) (room : ℕ) (allowed : HashSet ℕ)
      → admit_payload env decode now reserved p ≡ admitted room allowed
      → (jwt : String) × (claims : Claims) × IsAuthorized env decode now reserved room allowed jwt
          claims
  unfolding admit_payload
  admit_payload-IsAuthorized (some (auth jwt last)) room allowed h =
      let (claims, a) = authenticate-admitted jwt room allowed h in (jwt, claims, a)
  admit_payload-IsAuthorized none room allowed h = cc
  admit_payload-IsAuthorized (some (auth_ok n)) room allowed h = cc
  admit_payload-IsAuthorized (some (auth_error r d)) room allowed h = cc
  admit_payload-IsAuthorized (some (data_update u)) room allowed h = cc
  admit_payload-IsAuthorized (some (client_command b)) room allowed h = cc

  module _ ⦃W : Wire⦄ where
    -- A client is let in only with a first frame that holds a token which the configured key
    -- signed, which has not expired and which names a room other than 0; its rights are to bucket
    -- 0 and the buckets of the token, without the reserved one.
    pub first_frame-IsAuthorized :
        (received : Received) (room : ℕ) (allowed : HashSet ℕ)
        → first_frame env decode now reserved received ≡ admitted room allowed
        → (jwt : String) × (claims : Claims) × IsAuthorized env decode now reserved room allowed jwt
            claims
    unfolding first_frame
    first_frame-IsAuthorized (binary bin) room allowed h = elim (Option-cases (W.decode bin)) [
      | inl garbled ↦ ground arith
      | inr (p, decoded) ↦ admit_payload-IsAuthorized p room allowed (ground arith)
    ]
    first_frame-IsAuthorized text room allowed h = cc
    first_frame-IsAuthorized (ping payload) room allowed h = cc
    first_frame-IsAuthorized pong room allowed h = cc
    first_frame-IsAuthorized close room allowed h = cc
    first_frame-IsAuthorized other room allowed h = cc
    first_frame-IsAuthorized failed room allowed h = cc
    first_frame-IsAuthorized ended room allowed h = cc
