-- ===== src/Base/Text.antt =====
-- What the program uses of Rust's `str`: trimming, and decimal numbers.
pub mod Decimal
use Prim.Native.Nat.{ℕ}
use Prim.Native.Char.{Char, code}
use Prim.Native.String.{String, [], ◌∷◌}
use mathlib.Core.Path.{◌≡◌, refl}
use mathlib.Core.Bool.{Bool, true, false, ◌&&◌, ◌||◌}
use native.Mathlib.Omega.{arith}
use syncpond.Base.Tests.{eqb, leb, if◌then◌else◌, Bool-cases}

-- `char::is_whitespace`: Unicode's White_Space
unfoldable pub is_whitespace : ℕ → Bool
is_whitespace c =
    (leb 0x9 c && leb c 0xd)
    || eqb c 0x20
    || eqb c 0x85
    || eqb c 0xa0
    || eqb c 0x1680
    || (leb 0x2000 c && leb c 0x200a)
    || eqb c 0x2028
    || eqb c 0x2029
    || eqb c 0x202f
    || eqb c 0x205f
    || eqb c 0x3000

-- `str::is_empty`
unfoldable pub is_empty_str : String → Bool
is_empty_str [] = true
is_empty_str (c ∷ s) = false

unfoldable pub trim_start : String → String
unfolding is_whitespace
trim_start [] = []
trim_start (c ∷ s) = let rest = trim_start s in if is_whitespace (code c) then rest else c ∷ s

unfoldable pub trim_end : String → String
unfolding is_whitespace is_empty_str
trim_end [] = []
trim_end (c ∷ s) =
    let rest = trim_end s in if is_empty_str rest && is_whitespace (code c) then [] else c ∷ rest

-- `str::trim`
unfoldable pub trim : String → String
unfolding trim_start trim_end
trim s = trim_end (trim_start s)

test_trim : trim " \t room 1  " ≡ "room 1"
unfolding trim
test_trim = refl
