-- ===== src/Base/Text/Decimal.antt =====
-- `u64::to_string` (through `format!`) and `str::parse::<u64>`.
pub mod RoundTrip
use Prim.Native.Nat.{ℕ, zero, suc, ◌+◌, ◌-◌, ◌*◌, ◌/◌, ◌%◌, ◌^◌, ◌≤◌, ◌<◌}
use Prim.Native.Char.{Char, char, code}
use Prim.Native.String.{String, [], ◌∷◌}
use mathlib.Core.Path.{◌≡◌, refl}
use mathlib.Core.Bool.{Bool, true, false, ◌&&◌, ◌||◌}
use mathlib.Core.Option.{Option, none, some}
use native.Mathlib.Omega.{arith}
use syncpond.Base.Tests.{eqb, leb, ltb, if◌then◌else◌, Bool-cases, u64_max}

unfoldable pub digit : ℕ → Char
digit zero = "0"
digit (suc zero) = "1"
digit (suc (suc zero)) = "2"
digit (suc (suc (suc zero))) = "3"
digit (suc (suc (suc (suc zero)))) = "4"
digit (suc (suc (suc (suc (suc zero))))) = "5"
digit (suc (suc (suc (suc (suc (suc zero)))))) = "6"
digit (suc (suc (suc (suc (suc (suc (suc zero))))))) = "7"
digit (suc (suc (suc (suc (suc (suc (suc (suc zero)))))))) = "8"
digit (suc (suc (suc (suc (suc (suc (suc (suc (suc n))))))))) = "9"

-- The digits of `n` in front of `out`. A number has no more digits than the fuel, `n + 1`.
emit : ℕ → ℕ → String → String
emit zero n out = out
emit (suc fuel) n out =
    let more = emit fuel (n / 10) (digit (n % 10) ∷ out) in if ltb n 10 then digit n ∷ out else more

unfoldable pub to_string : ℕ → String
unfolding emit digit
to_string n = emit (suc n) n []

-- `none` on a character that is no digit, and when the value passes `u64::MAX`
scan : String → ℕ → Option ℕ
scan [] n = some n
scan (c ∷ s) n =
    let n' = n * 10 + (code c - 48) in
    let rest = scan s n' in
    if leb 48 (code c) && leb (code c) 57 && leb n' u64_max then rest else none

-- A leading `+` is accepted in front of at least one digit.
unfoldable pub parse_u64 : String → Option ℕ
unfolding scan
parse_u64 [] = none
parse_u64 (c ∷ []) = scan (c ∷ []) 0
parse_u64 (c ∷ d ∷ s) = if eqb (code c) 43 then scan (d ∷ s) 0 else scan (c ∷ d ∷ s) 0

test_to_string : to_string 18446744073709551615 ≡ "18446744073709551615"
unfolding to_string
test_to_string = refl

test_parse : parse_u64 "+0017" ≡ some 17
unfolding parse_u64
test_parse = refl

test_overflow : parse_u64 "18446744073709551616" ≡ none
unfolding parse_u64
test_overflow = refl
