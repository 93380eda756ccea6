-- ===== src/Tests/Frames.antt =====
-- A wire format that the tests use: a tag, then numbers, and texts that end with a zero.
use Prim.Native.Nat.{Ordering, compare}
use Prim.Native.Char.{Char, char, code, nul}
use Prim.Native.String.{String}
use syncpond.Base.{ℕ, zero, suc, ◌≡◌, refl, Bool, true, false, Option, none, some, [], ◌∷◌, eqb}
use syncpond.Extern.Json.{Bytes}
use syncpond.Extern.Wire.{Wire, Payload, auth, auth_ok, auth_error, data_update, client_command}

abbrev IsLess : Ordering → Type 0
IsLess Ordering.lt = Unit
IsLess Ordering.eq = ⊥
IsLess Ordering.gt = ⊥

abbrev Both : Ordering → Ordering → Type 0
Both Ordering.lt o = IsLess o
Both Ordering.eq o = ⊥
Both Ordering.gt o = ⊥

abbrev IsIn : Ordering → Ordering → Ordering → Type 0
IsIn Ordering.lt p q = Unit
IsIn Ordering.eq p q = Both p q
IsIn Ordering.gt p q = Both p q

decide_both : (p q : Ordering) → Option (Both p q)
decide_both Ordering.lt Ordering.lt = some tt
decide_both Ordering.lt Ordering.eq = none
decide_both Ordering.lt Ordering.gt = none
decide_both Ordering.eq q = none
decide_both Ordering.gt q = none

decide_in : (o p q : Ordering) → Option (IsIn o p q)
unfolding decide_both
decide_in Ordering.lt p q = some tt
decide_in Ordering.eq p q = decide_both p q
decide_in Ordering.gt p q = decide_both p q

both-decided : (p q : Ordering) (x : Both p q) → decide_both p q ≡ some x
unfolding decide_both
both-decided Ordering.lt Ordering.lt x = refl
both-decided Ordering.lt Ordering.eq x = absurd x
both-decided Ordering.lt Ordering.gt x = absurd x
both-decided Ordering.eq q x = absurd x
both-decided Ordering.gt q x = absurd x

in-decided : (o p q : Ordering) (x : IsIn o p q) → decide_in o p q ≡ some x
unfolding decide_in
in-decided Ordering.lt p q x = refl
in-decided Ordering.eq p q x = both-decided p q x
in-decided Ordering.gt p q x = both-decided p q x

to_char : ℕ → Char
unfolding decide_in
to_char n = elim (decide_in (compare n 55296) (compare 57343 n) (compare n 1114112)) [
  | none ↦ nul
  | some p ↦ char n p
]

to_char-code : (c : Char) → to_char (code c) ≡ c
unfolding to_char
to_char-code (char n p) =
    rw (in-decided (compare n 55296) (compare 57343 n) (compare n 1114112) p, to_char) refl

unfoldable pub write : String → Bytes → Bytes
write String.[] rest = 0 ∷ rest
write (String.◌∷◌ c s) rest = suc (code c) ∷ write s rest

unfoldable pub read : Bytes → String × Bytes
unfolding to_char
read [] = (String.[], [])
read (zero ∷ rest) = (String.[], rest)
read (suc n ∷ rest) = let later = read rest in (String.◌∷◌ (to_char n) later.0, later.1)

pub read-write : (s : String) (rest : Bytes) → read (write s rest) ≡ (s, rest)
unfolding read write
read-write String.[] rest = refl
read-write (String.◌∷◌ c s) rest = rw (read-write s rest, to_char-code c) refl

bit : Bool → ℕ
bit true = 1
bit false = 0

eqb-bit : (b : Bool) → eqb (bit b) 1 ≡ b
unfolding bit
eqb-bit true = refl
eqb-bit false = refl

unfoldable pub encode : Option Payload → Bytes
unfolding write bit
encode none = 0 ∷ []
encode (some (auth jwt last)) = 1 ∷ last ∷ write jwt []
encode (some (auth_ok n)) = 2 ∷ n ∷ []
encode (some (auth_error reason detail)) = 3 ∷ write reason (write detail [])
encode (some (data_update u)) =
    4 ∷ u.bucket_id ∷ u.bucket_counter ∷ bit u.deleted ∷ write u.key u.value
encode (some (client_command bytes)) = 5 ∷ bytes

decode_update : ℕ → ℕ → ℕ → String × Bytes → Option (Option Payload)
decode_update b n deleted (key, value) = some (
    some (
      data_update (record {
        bucket_id = b;
        key = key;
        value = value;
        bucket_counter = n;
        deleted = eqb deleted 1;
      })))

decode_tag : ℕ → Bytes → Option (Option Payload)
unfolding read decode_update
decode_tag zero rest = some none
decode_tag (suc zero) [] = none
decode_tag (suc zero) (n ∷ rest) = some (some (auth (read rest).0 n))
decode_tag (suc (suc zero)) [] = none
decode_tag (suc (suc zero)) (n ∷ rest) = some (some (auth_ok n))
decode_tag (suc (suc (suc zero))) rest =
    some (some (auth_error (read rest).0 (read (read rest).1).0))
decode_tag (suc (suc (suc (suc zero)))) (b ∷ n ∷ deleted ∷ rest) =
    decode_update b n deleted (read rest)
decode_tag (suc (suc (suc (suc zero)))) rest = none
decode_tag (suc (suc (suc (suc (suc n))))) rest = some (some (client_command rest))

unfoldable pub decode : Bytes → Option (Option Payload)
unfolding decode_tag
decode [] = none
decode (tag ∷ rest) = decode_tag tag rest

pub decode-encode : (p : Option Payload) → decode (encode p) ≡ some p
unfolding decode decode_tag encode decode_update bit
decode-encode none = refl
decode-encode (some (auth jwt last)) = rw (read-write jwt []) refl
decode-encode (some (auth_ok n)) = refl
decode-encode (some (auth_error reason detail)) =
    rw (read-write reason (write detail []), read-write detail []) refl
decode-encode (some (data_update u)) =
    rw (read-write u.key u.value, eqb-bit u.deleted, decode_update) refl
decode-encode (some (client_command bytes)) = refl

instance unfoldable pub test_wire : Wire
unfolding encode decode
test_wire = record { encode_to_vec = encode; decode = decode; decode-encode_to_vec = decode-encode }
