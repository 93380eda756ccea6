-- ===== src/Base/Text/Decimal/RoundTrip.antt =====
-- A number that is printed is read back, and different numbers print differently.
use Prim.Native.Nat.{ℕ, zero, suc, ◌+◌, ◌-◌, ◌*◌, ◌/◌, ◌%◌, ◌≤◌, ◌<◌}
use Prim.Native.Char.{code}
use Prim.Native.String.{String, [], ◌∷◌}
use mathlib.Core.Path.{◌≡◌, refl, ◌∙◌, sym, ap}
use mathlib.Core.Logic.{inl, inr}
use mathlib.Core.Bool.{true}
use mathlib.Core.Option.{some}
use native.Mathlib.Omega.{arith}
use syncpond.Base.Tests.{leb, ltb, Bool-cases, u64_max}
use syncpond.Base.Text.Decimal.{digit, emit, to_string, scan, parse_u64}

code-digit : (d : ℕ) → d < 10 → code (digit d) ≡ 48 + d
unfolding digit
code-digit zero h = refl
code-digit (suc zero) h = refl
code-digit (suc (suc zero)) h = refl
code-digit (suc (suc (suc zero))) h = refl
code-digit (suc (suc (suc (suc zero)))) h = refl
code-digit (suc (suc (suc (suc (suc zero))))) h = refl
code-digit (suc (suc (suc (suc (suc (suc zero)))))) h = refl
code-digit (suc (suc (suc (suc (suc (suc (suc zero))))))) h = refl
code-digit (suc (suc (suc (suc (suc (suc (suc (suc zero)))))))) h = refl
code-digit (suc (suc (suc (suc (suc (suc (suc (suc (suc n))))))))) h = omega arith

-- The number that the digits stand for, with no bound on it.
value : String → ℕ → ℕ
value [] n = n
value (c ∷ s) n = value s (n * 10 + (code c - 48))

value-emit : (fuel n : ℕ) (out : String) → n < fuel → value (emit fuel n out) 0 ≡ value out n
unfolding emit value
value-emit zero n out h = absurd (omega arith)
value-emit (suc fuel) n out h = elim (Bool-cases (ltb n 10)) [
  | inl small ↦ rw small (ap (value out) (ground (arith, code-digit n)))
  | inr large ↦ rw large (
      value-emit fuel (n / 10) (digit (n % 10) ∷ out) (ground arith)
      ∙ ap (value out) (ground (arith, code-digit (n % 10))))
]

pub to_string_injective : (m n : ℕ) → to_string m ≡ to_string n → m ≡ n
unfolding to_string value
to_string_injective m n e =
    sym (value-emit (suc m) m [] (omega arith))
    ∙ ap (λ s. value s 0) e
    ∙ value-emit (suc n) n [] (omega arith)

scan-digit :
    (d n m : ℕ) (out : String)
    → d < 10
    → n * 10 + d ≡ m
    → m ≤ u64_max
    → scan (digit d ∷ out) n ≡ scan out m
unfolding scan
scan-digit d n m out h sum bound =
    let low : leb 48 (code (digit d)) ≡ true = ground (arith, code-digit d h) in
    let high : leb (code (digit d)) 57 ≡ true = ground (arith, code-digit d h) in
    let next : n * 10 + (code (digit d) - 48) ≡ m = omega (arith, code-digit d h) in
    rw (low, high, next) (rw (leb_of_le m u64_max bound))
  where
    leb_of_le : (a b : ℕ) → a ≤ b → leb a b ≡ true
    leb_of_le a b le = ground arith

scan-emit :
    (fuel n : ℕ) (out : String) → n < fuel → n ≤ u64_max → scan (emit fuel n out) 0 ≡ scan out n
unfolding emit
scan-emit zero n out h bound = absurd (omega arith)
scan-emit (suc fuel) n out h bound = elim (Bool-cases (ltb n 10)) [
  | inl small ↦ rw small (scan-digit n 0 n out (ground arith) (omega arith) bound)
  | inr large ↦ rw large (
      scan-emit fuel (n / 10) (digit (n % 10) ∷ out) (ground arith) (omega arith)
      ∙ scan-digit (n % 10) (n / 10) n out (omega arith) (omega arith) bound)
]

-- The output is not empty, and does not begin with a sign.
abbrev Digits : String → Type 0
Digits s = (d : ℕ) × (rest : String) × (d < 10) × (s ≡ digit d ∷ rest)

emit-Digits : (fuel n : ℕ) (out : String) → n < fuel → Digits (emit fuel n out)
unfolding emit
emit-Digits zero n out h = absurd (omega arith)
emit-Digits (suc fuel) n out h = elim (Bool-cases (ltb n 10)) [
  | inl small ↦ rw small (n, out, ground arith, refl)
  | inr large ↦ rw large (emit-Digits fuel (n / 10) (digit (n % 10) ∷ out) (ground arith))
]

parse_digits : (d : ℕ) (s : String) → d < 10 → parse_u64 (digit d ∷ s) ≡ scan (digit d ∷ s) 0
unfolding parse_u64
parse_digits d [] h = refl
parse_digits d (c ∷ s) h = rw (code-digit d h) (ground arith)

parse_of_Digits : (s : String) → Digits s → parse_u64 s ≡ scan s 0
parse_of_Digits s (d, rest, small, e) = rw e (parse_digits d rest small)

-- A u64 that is printed is read back.
pub parse_u64-to_string : (n : ℕ) → n ≤ u64_max → parse_u64 (to_string n) ≡ some n
unfolding to_string scan
parse_u64-to_string n bound =
    parse_of_Digits (to_string n) (emit-Digits (suc n) n [] (omega arith))
    ∙ scan-emit (suc n) n [] (omega arith) bound

-- Every character is a digit.
abbrev pub AllDigits : String → Type 0
AllDigits [] = Unit {0}
AllDigits (c ∷ s) = (48 ≤ code c) × (code c ≤ 57) × AllDigits s

digit-AllDigits : (d : ℕ) (out : String) → d < 10 → AllDigits out → AllDigits (digit d ∷ out)
digit-AllDigits d out small h = let e = code-digit d small in (omega arith, omega arith, h)

emit-AllDigits : (fuel n : ℕ) (out : String) → AllDigits out → AllDigits (emit fuel n out)
unfolding emit
emit-AllDigits zero n out h = h
emit-AllDigits (suc fuel) n out h = elim (Bool-cases (ltb n 10)) [
  | inl small ↦ rw small (digit-AllDigits n out (ground arith) h)
  | inr large ↦ rw large (
      emit-AllDigits fuel (n / 10) (digit (n % 10) ∷ out)
        (digit-AllDigits (n % 10) out (omega arith) h))
]

pub to_string-AllDigits : (n : ℕ) → AllDigits (to_string n)
unfolding to_string
to_string-AllDigits n = emit-AllDigits (suc n) n [] tt
