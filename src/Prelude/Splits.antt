-- ===== src/Prelude/Splits.antt =====
-- `strings.Split` at one character.
use Prim.Native.Nat.{ℕ}
use Prim.Native.Char.{Char, code}
use Prim.Native.String.{String, [], ◌∷◌}
use mathlib.Core.List.{List, [] as []ᴸ, ◌∷◌ as ◌∷ᴸ◌}
use orkai.Prelude.Tests.{◌==◌, if◌then◌else◌}

with_char : Char → List String → List String
with_char c []ᴸ = (c ∷ []) ∷ᴸ []ᴸ
with_char c (t ∷ᴸ ts) = (c ∷ t) ∷ᴸ ts

unfoldable pub split_on : ℕ → String → List String
unfolding with_char
split_on sep [] = [] ∷ᴸ []ᴸ
split_on sep (c ∷ s) =
    let rest = split_on sep s in if code c == sep then [] ∷ᴸ rest else with_char c rest
