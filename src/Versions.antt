-- ===== src/Versions.antt =====
-- The comparison of versions in apps/api/internal/service/version_service.go.
pub mod Order
use orkai.Prelude.{
  ℕ, zero, suc, ◌+◌, ◌*◌, ◌-◌, ◌^◌, String, Bool, true, false, Option, none, some, List, [], ◌∷◌,
  ◌&&◌, not, ◌==◌, leb, ltb, str_eq, if◌then◌else◌,
}
use orkai.Prelude.Text.{trim_prefix, before, after, has_char, digits}

-- `strings.TrimPrefix(v, "v")`, and what stands before the first dash.
abbrev pub clean : String → String
clean v = trim_prefix "v" v

abbrev pub base : String → String
base v = before 45 v

abbrev pub is_prerelease : String → Bool
is_prerelease v = has_char 45 v

-- `strconv.Atoi` with its error dropped: 0 where there is no number, and the largest number where it
-- does not fit. A sign cannot be `-`, which `base` has cut.
abbrev max_int : ℕ
max_int = 2 ^ 63 - 1

abbrev clamp : Option ℕ → ℕ
clamp none = 0
clamp (some n) = if leb n max_int then n else max_int

abbrev pub atoi : String → ℕ
atoi s = clamp (digits (trim_prefix "+" s))

abbrev atoi_of : Option String → ℕ
atoi_of none = 0
atoi_of (some s) = atoi s

abbrev and_then : Option String → (String → Option String) → Option String
and_then none f = none
and_then (some s) f = f s

-- `strings.SplitN(v, ".", 3)`: the third part is all that is left.
unfoldable pub parse : String → ℕ × (ℕ × ℕ)
parse v =
    let rest = after 46 v in
    let minor = and_then rest (λ s. some (before 46 s)) in
    (atoi (before 46 v), (atoi_of minor, atoi_of (and_then rest (after 46))))

-- The first number that differs decides.
unfoldable pub newer : ℕ × (ℕ × ℕ) → ℕ × (ℕ × ℕ) → Bool
newer (la, (lb, lc)) (ca, (cb, cc)) =
    if not (la == ca) then ltb ca la else if not (lb == cb) then ltb cb lb else ltb cc lc

abbrev pub is_newer : String → String → Bool
is_newer latest current = newer (parse (base (clean latest))) (parse (base (clean current)))

abbrev pub is_release_of : String → String → Bool
is_release_of latest current =
    is_prerelease current && str_eq (base current) (base latest) && not (is_prerelease latest)

unfoldable pub should_update : String → String → Bool
should_update latest current =
    if str_eq (clean latest) (clean current)
    then false
    else if is_release_of (clean latest) (clean current)
    then true
    else is_newer latest current
