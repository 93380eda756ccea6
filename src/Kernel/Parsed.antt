-- ===== src/Kernel/Parsed.antt =====
-- The values that the contents of `WriteFragment` stand for.
use syncpond.Base.{String, ◌≡◌, ◌⊎◌, refl, none, some, inl, inr}
use syncpond.Extern.Json.{Json, Bytes}
use syncpond.Kernel.Writing.{parse_value}

-- The value that some content stands for: its JSON value, or its text where it is no JSON.
abbrev pub StandsFor : {V : Type 0} ⦃J : Json V⦄ → (Bytes → String) → Bytes → V → Type 0
StandsFor ⦃J = J⦄ from_utf8_lossy content v =
    (J.from_slice content ≡ some v)
    ⊎ ((J.from_slice content ≡ none) × (v ≡ J.string (from_utf8_lossy content)))

pub StandsFor-parse_value :
    {V : Type 0} ⦃J : Json V⦄ (from_utf8_lossy : Bytes → String) (content : Bytes) (v : V)
    → StandsFor from_utf8_lossy content v
    → parse_value from_utf8_lossy content ≡ v
unfolding parse_value
StandsFor-parse_value from_utf8_lossy content v (inl parsed) = rw parsed refl
StandsFor-parse_value from_utf8_lossy content v (inr (text, same)) = rw text (rw same refl)
