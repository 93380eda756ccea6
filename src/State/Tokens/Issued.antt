-- ===== src/State/Tokens/Issued.antt =====
-- What holds of a token that was issued.
use Prim.Native.String.{len}
use syncpond.Base.{
  ℕ, ◌≤◌, String, ◌≡◌, refl, Bool, true, false, not, ◌||◌, Option, none, some, List, [], ◌∷◌, arith,
  ok, >>=-eq-ok, fail_if, ok_or, inl, inr, Result-cases, ltb, leb, u64_max, saturating_add,
}
use syncpond.Base.Eq.{nat_eq, string_eq, ◌==◌, ==_iff}
use syncpond.Base.HashMap.{contains_key}
use syncpond.Base.HashSet.{contains, collect, contains-insert, contains-collect}
use syncpond.Base.Text.{trim, is_empty_str}
use syncpond.State.{RoomState, AppState, room_of, server_only_bucket_id}
use syncpond.State.Tokens.{
  JwtClaims, issue_time, may_issue, claims_at, issue_with, create_room_token, has_reserved,
}

-- Who may get a token.
pub record IsEntitled {V : Type 0} (i : ℕ) (sub key : String) (buckets : List ℕ) (app : AppState V)
    : Type 0 where
  pub room : RoomState V
  pub found : room_of i app ≡ ok room
  pub member : contains (trim sub) room.members ≡ true
  pub signing : app.jwt_key ≡ some key
  pub long : 32 ≤ len key
  pub no_reserved : contains server_only_bucket_id buckets ≡ false

has_reserved-contains : (l : List ℕ) → has_reserved l ≡ contains server_only_bucket_id l
unfolding has_reserved contains
has_reserved-contains [] = refl
has_reserved-contains (x ∷ l) = ground (arith, has_reserved-contains l)

-- Later than the last second, or the last second there is.
abbrev pub is_later : Option ℕ → ℕ → Bool
is_later none now = true
is_later (some last) now = ltb last now || leb u64_max last

issue_time-is_later :
    (clock : ℕ) (last : Option ℕ)
    → (is_later last (issue_time clock last) ≡ true) × (clock ≤ issue_time clock last)
unfolding issue_time
issue_time-is_later clock none = (refl, omega arith)
issue_time-is_later clock (some last) = ground arith

fail_if-eq-ok : {E : Type 0} (test : Bool) (e : E) → fail_if test e ≡ ok tt → test ≡ false
fail_if-eq-ok true e h = cc
fail_if-eq-ok false e h = refl

module _ {V : Type 0} where
  may_issue-IsEntitled :
      (i : ℕ) (sub : String) (buckets : List ℕ) (app : AppState V) (key : String)
      → may_issue i sub buckets app ≡ ok key
      → IsEntitled i sub key buckets app
  unfolding may_issue
  may_issue-IsEntitled i sub buckets app key h =
      let (key1, keyed, h1) = >>=-eq-ok (ok_or app.jwt_key _) _ h in
      let (done0, long, h2) = >>=-eq-ok (fail_if (ltb (len key1) 32) _) _ h1 in
      let (issuer, has_issuer, h3) = >>=-eq-ok (ok_or app.jwt_issuer _) _ h2 in
      let (audience, has_audience, h4) = >>=-eq-ok (ok_or app.jwt_audience _) _ h3 in
      let (done1, there, h5) = >>=-eq-ok (fail_if (not (contains_key i app.rooms)) _) _ h4 in
      let (room, found, h6) = >>=-eq-ok (room_of i app) _ h5 in
      let (done2, member, h7) =
        >>=-eq-ok (fail_if (is_empty_str (trim sub) || not (contains (trim sub) room.members)) _) _
          h6 in
      let (done3, free, h8) = >>=-eq-ok (fail_if (has_reserved buckets) _) _ h7 in
      record {
        room = room;
        found = found;
        member = ground (
          arith,
          fail_if-eq-ok (is_empty_str (trim sub) || not (contains (trim sub) room.members)) _
              member,
        );
        signing = ground arith;
        long = ground (arith, fail_if-eq-ok (ltb (len key1) 32) _ long);
        no_reserved =
            rw (← has_reserved-contains buckets) (fail_if-eq-ok (has_reserved buckets) _ free);
      }

  -- A token that is issued is for a member of a room that exists, signed with a key of at least 32
  -- bytes; it gives exactly bucket 0 and the buckets asked for, of which none is the reserved one;
  -- it names the room and the trimmed member, and expires the configured time after its second of
  -- issue, if no u64 is passed; and that second, which the state keeps, is not before the clock's
  -- and is later than that of the last token, unless that was the last second of the u64.
  pub create_room_token-IsEntitled :
      (encode : JwtClaims → String → Option String) (clock i : ℕ) (sub : String) (buckets : List ℕ)
      (app : AppState V) (token : String)
      → (create_room_token encode clock i sub buckets app).1 ≡ ok token
      → (key : String) × (claims : JwtClaims) × (now : ℕ) × IsEntitled i sub key buckets app
        × (encode claims key ≡ some token)
        × (claims.room_id ≡ i)
        × (claims.sub ≡ trim sub)
        × ((b : ℕ) → contains b claims.buckets ≡ (b == 0 || contains b buckets))
        × ((create_room_token encode clock i sub buckets app).0.last_jwt_issue_seconds ≡ some now)
        × (is_later app.last_jwt_issue_seconds now ≡ true)
        × (clock ≤ now)
        × (claims.exp ≡ saturating_add now app.jwt_ttl_seconds)
  unfolding create_room_token issue_with claims_at
  create_room_token-IsEntitled encode clock i sub buckets app token h =
      elim (Result-cases (may_issue i sub buckets app)) [
        | inr (e, refused) ↦ ground arith
        | inl (key, may) ↦
            let now = issue_time clock app.last_jwt_issue_seconds in
            let later = issue_time-is_later clock app.last_jwt_issue_seconds in
            (
              key,
              claims_at i sub buckets now app,
              now,
              may_issue-IsEntitled i sub buckets app key may,
              ground arith,
              refl,
              refl,
              (λ b. ground (
                arith,
                contains-insert 0 b (collect buckets),
                contains-collect b buckets,
                ==_iff b 0,
              )),
              ground arith,
              later.0,
              later.1,
              refl,
            )
      ]
