-- ===== src/Prelude/Text.antt =====
-- `strings.TrimSpace` over the characters that `unicode.IsSpace` names.
use Prim.Native.Nat.{ℕ, zero, suc, ◌+◌, ◌*◌, ◌-◌}
use Prim.Native.Char.{code}
use Prim.Native.String.{String, [], ◌∷◌}
use text.Mathlib.Text.{◌==◌ as str_eq}
use mathlib.Core.Bool.{Bool, true, false, ◌&&◌, ◌||◌}
use mathlib.Core.Option.{Option, none, some}
use orkai.Prelude.Tests.{leb, ◌==◌, if◌then◌else◌}

abbrev is_space : ℕ → Bool
is_space c =
    (leb 9 c && leb c 13)
    || c == 32
    || c == 0x85
    || c == 0xa0
    || c == 0x1680
    || (leb 0x2000 c && leb c 0x200a)
    || c == 0x2028
    || c == 0x2029
    || c == 0x202f
    || c == 0x205f
    || c == 0x3000

trim_left : String → String
trim_left [] = []
trim_left (c ∷ s) = let rest = trim_left s in if is_space (code c) then rest else c ∷ s

trim_right : String → String
trim_right [] = []
trim_right (c ∷ s) =
    let rest = trim_right s in if is_space (code c) && str_eq rest "" then rest else c ∷ rest

unfoldable pub trim_space : String → String
unfolding trim_left trim_right
trim_space s = trim_right (trim_left s)

-- `strings.HasPrefix`: what follows the prefix, if it is one.
abbrev after_prefix : String → String → Option String
after_prefix [] s = some s
after_prefix (c ∷ p) [] = none
after_prefix (c ∷ p) (d ∷ s) =
    let rest = after_prefix p s in if code c == code d then rest else none

abbrev or_self : String → Option String → String
or_self s none = s
or_self s (some t) = t

-- `strings.TrimPrefix`
abbrev pub trim_prefix : String → String → String
trim_prefix prefix s = or_self s (after_prefix prefix s)

-- `strings.TrimSuffix`
abbrev pub trim_suffix : String → String → String
trim_suffix suffix [] = []
trim_suffix suffix (c ∷ s) =
    let rest = trim_suffix suffix s in if str_eq (c ∷ s) suffix then [] else c ∷ rest

-- `s[:n]`, in characters.
abbrev pub first_chars : ℕ → String → String
first_chars zero s = []
first_chars (suc n) [] = []
first_chars (suc n) (c ∷ s) = c ∷ first_chars n s

-- `s + t`
abbrev pub append : String → String → String
append [] t = t
append (c ∷ s) t = c ∷ append s t

abbrev is_alphanumeric : ℕ → Bool
is_alphanumeric c = (leb 48 c && leb c 57) || (leb 65 c && leb c 90) || (leb 97 c && leb c 122)

abbrev safe_rest : String → Bool
safe_rest [] = true
safe_rest (c ∷ s) = (is_alphanumeric (code c) || code c == 45 || code c == 95) && safe_rest s

-- `^[a-zA-Z0-9][a-zA-Z0-9_-]*$`
abbrev pub is_safe_name : String → Bool
is_safe_name [] = false
is_safe_name (c ∷ s) = is_alphanumeric (code c) && safe_rest s

-- What stands before the first such character: all of it, where there is none.
abbrev pub before : ℕ → String → String
before sep [] = []
before sep (c ∷ s) = let rest = before sep s in if code c == sep then [] else c ∷ rest

abbrev pub has_char : ℕ → String → Bool
has_char sep [] = false
has_char sep (c ∷ s) = code c == sep || has_char sep s

abbrev digits_from : ℕ → String → Option ℕ
digits_from n [] = some n
digits_from n (c ∷ s) =
    let rest = digits_from (10 * n + (code c - 48)) s in
    if leb 48 (code c) && leb (code c) 57 then rest else none

-- A number in decimal digits, of which there is one at least.
abbrev pub digits : String → Option ℕ
digits [] = none
digits (c ∷ s) = digits_from 0 (c ∷ s)

-- What stands after the first such character, if there is one.
abbrev pub after : ℕ → String → Option String
after sep [] = none
after sep (c ∷ s) = let rest = after sep s in if code c == sep then some s else rest
