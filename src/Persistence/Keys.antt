-- ===== src/Persistence/Keys.antt =====
-- What the key of a fragment says is read back from it.
use Prim.Native.String
use Prim.Native.String.append
use Prim.Native.String.{String, [], ◌∷◌}
use syncpond.Base.{
  ℕ, ◌≤◌, ◌≡◌, refl, true, false, none, some, arith, ap, inl, inr, Bool-cases, u64_max,
}
use syncpond.Base.Eq.{string_eq, nat_eq, ◌==◌, ==_iff, ==_refl}
use syncpond.Base.Text.Decimal.{to_string}
use syncpond.Base.Text.Decimal.RoundTrip.{parse_u64-to_string, AllDigits, to_string-AllDigits}
use syncpond.Extern.Json.{Json, Bytes}
use syncpond.Persistence.{fragment_key, bucket_key, bucket_list_key, split_at_colon, strip_prefix}
use syncpond.Persistence.Rooms.{fragment_of, bucket_id_of}

-- A text of digits ends at the first colon after it.
split-digits :
    (p s : String) → AllDigits p → split_at_colon (String.◌++◌ p (String.◌++◌ ":" s)) ≡ some (p, s)
unfolding split_at_colon
split-digits [] s d =
    rw (append.nil (String.◌++◌ ":" s)) (rw (append.cons ":" [] s) (rw (append.nil s) refl))
split-digits (c ∷ p) s d =
    rw (append.cons c p (String.◌++◌ ":" s)) (ground (arith, split-digits p s d.2))

pub split-fragment_key :
    (b : ℕ) (key : String)
    → split_at_colon (fragment_key (to_string b) key) ≡ some (to_string b, key)
unfolding fragment_key
split-fragment_key b key = split-digits (to_string b) key (to_string-AllDigits b)

-- A prefix is stripped from what was put after it.
strip-prefix : (p s : String) → strip_prefix p (String.◌++◌ p s) ≡ some s
unfolding strip_prefix
strip-prefix [] s = rw (append.nil s) refl
strip-prefix (c ∷ p) s = rw (append.cons c p s) (ground (arith, strip-prefix p s))

pub bucket_id_of-bucket_key : (b : ℕ) → b ≤ u64_max → bucket_id_of (some (bucket_key b)) ≡ some b
unfolding bucket_id_of bucket_key
bucket_id_of-bucket_key b bound =
    ground (arith, strip-prefix "bucket:" (to_string b), parse_u64-to_string b bound)

-- The list of the ids stands under another key than any record.
not_prefixed : (s : String) → strip_prefix "bucket:" (String.◌++◌ "/room/" s) ≡ none
unfolding strip_prefix
not_prefixed s = rw (append.cons "/" "room/" s) refl

pub other_key : (i b : ℕ) → (bucket_list_key i == bucket_key b) ≡ false
unfolding bucket_list_key bucket_key
other_key i b = elim (Bool-cases (bucket_list_key i == bucket_key b)) [
  | inr other ↦ other
  | inl same ↦
      let equal = (==_iff (bucket_list_key i) (bucket_key b)).0 same in
      let one = ap (strip_prefix "bucket:") equal in
      let two = strip-prefix "bucket:" (to_string b) in
      let three = not_prefixed (String.◌++◌ (to_string i) "/buckets") in cc
]

bucket_key_injective : (b c : ℕ) → b ≤ u64_max → c ≤ u64_max → bucket_key b ≡ bucket_key c → b ≡ c
bucket_key_injective b c below_b below_c same =
    let one = bucket_id_of-bucket_key b below_b in
    let two = bucket_id_of-bucket_key c below_c in
    let both = ap (λ k. bucket_id_of (some k)) same in ground arith

pub same_bucket_key :
    (b c : ℕ) → b ≤ u64_max → c ≤ u64_max → (bucket_key b == bucket_key c) ≡ (b == c)
same_bucket_key b c below_b below_c = elim (Bool-cases (b == c)) [
  | inl same ↦
      let equal : b ≡ c = (==_iff b c).0 same in rw (equal, ==_refl c) (==_refl (bucket_key c))
  | inr differ ↦ elim (Bool-cases (bucket_key b == bucket_key c)) [
    | inr other ↦ cc
    | inl same ↦
        let equal =
          bucket_key_injective b c below_b below_c
            ((==_iff (bucket_key b) (bucket_key c)).0 same) in
        ground (arith, (==_iff b c).1 equal)
  ]
]

module _ {V : Type 0} ⦃J : Json V⦄ where
  -- The entry that `persist_fragment` writes for a value that has no float and no depth that its
  -- JSON does not give back and can be serialized, in a bucket whose id is a u64, is read back as
  -- that fragment, whatever characters its key has, colons included.
  pub fragment_of-fragment_key :
      (b : ℕ) (key : String) (v : V) (bytes : Bytes)
      → b ≤ u64_max
      → J.is_exact v ≡ true
      → J.to_vec v ≡ some bytes
      → fragment_of (some (fragment_key (to_string b) key)) bytes ≡ some (b, key, v)
  unfolding fragment_of
  fragment_of-fragment_key b key v bytes bound exact saved = ground (
    arith,
    split-fragment_key b key,
    parse_u64-to_string b bound,
    J.from_slice-to_vec v bytes exact saved,
  )
