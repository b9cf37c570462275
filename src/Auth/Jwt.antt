-- ===== src/Auth/Jwt.antt =====
-- apps/api/internal/auth/jwt.go. The library golang-jwt is a parameter: `sign` is `SignedString` with
-- HS256 and the manager's secret, `parse` is `ParseWithClaims` with a key function that allows HMAC
-- only, at a time.
pub mod Issued
use orkai.Prelude.{
  ℕ, ◌+◌, ◌*◌, String, ◌≡◌, Bool, true, false, Option, none, some, leb, ◌==◌, str_eq, if◌then◌else◌,
}
use Prim.Native.Nat.{◌/◌}
use orkai.Model.Accounts.{second, minute}
use orkai.Result.{Result, ok, err, Error, message}

-- The claims of every kind of token. A kind that has no such claim leaves it at its zero value, which
-- is also what a missing claim decodes to. A subject that is no UUID is `none`.
pub record Claims : Type 0 where
  pub issuer : String
  pub subject : Option ℕ
  pub jti : String
  pub issued_at : ℕ
  pub expires_at : Option ℕ
  pub user_id : ℕ
  pub org_id : ℕ
  pub role : String
  pub token_version : ℕ
  pub provider : String

-- `(token, nil)`, `ErrTokenExpired`, any other error.
pub data Parsed : Type 0 where
  valid : Claims → Parsed
  expired invalid : Parsed

pub record Library : Type 0 where
  pub sign : Claims → Result String
  pub parse : ℕ → String → Parsed

-- `exp` is checked where it is present: a token is good before that time.
abbrev is_over : Option ℕ → ℕ → Bool
is_over none now = false
is_over (some t) now = leb t now

abbrev pub checked : ℕ → Claims → Parsed
checked now c = if is_over c.expires_at now then expired else valid c

-- A signed token parses to its claims, until it has expired.
pub record Parses (lib : Library) : Type 0 where
  pub back :
      (c : Claims) (s : String) (now : ℕ) → lib.sign c ≡ ok s → lib.parse now s ≡ checked now c

pub record Manager : Type 0 where
  pub lib : Library
  pub token_expiry : ℕ
  pub refresh_expiry : ℕ

abbrev pub invalid_token : Error
invalid_token = message "invalid or expired token"

abbrev pub token_expired : Error
token_expired = message "token has expired"

abbrev pub state_issuer : String
state_issuer = "orkai-oauth-state"

abbrev pub challenge_issuer : String
challenge_issuer = "orkai-oauth-2fa"

abbrev pub refresh_issuer : String
refresh_issuer = "orkai-refresh"

abbrev pub state_expiry : ℕ
state_expiry = 10 * minute

abbrev pub challenge_expiry : ℕ
challenge_expiry = 5 * minute

-- `NewNumericDate`: whole seconds.
abbrev pub numeric_date : ℕ → ℕ
numeric_date t = t / second * second

abbrev blank : Claims
blank = record {
  issuer = "";
  subject = none;
  jti = "";
  issued_at = 0;
  expires_at = none;
  user_id = 0;
  org_id = 0;
  role = "";
  token_version = 0;
  provider = "";
}

pub record TokenPair : Type 0 where
  pub access_token : String
  pub refresh_token : String
  pub expires_at : ℕ

abbrev pub access_claims : Manager → ℕ → ℕ → ℕ → String → ℕ → Claims
access_claims m now user_id org_id role tv = record blank {
  issuer = "orkai";
  subject = some user_id;
  issued_at = numeric_date now;
  expires_at = some (numeric_date (now + m.token_expiry));
  user_id = user_id;
  org_id = org_id;
  role = role;
  token_version = tv;
}

abbrev pub refresh_claims : Manager → ℕ → ℕ → ℕ → Claims
refresh_claims m now user_id tv = record blank {
  issuer = refresh_issuer;
  subject = some user_id;
  issued_at = numeric_date now;
  expires_at = some (numeric_date (now + m.refresh_expiry));
  token_version = tv;
}

both_tokens : ℕ → Result String → Result String → Result TokenPair
both_tokens at_end (err e) r = err e
both_tokens at_end (ok a) (err e) = err e
both_tokens at_end (ok a) (ok r) =
    ok (record { access_token = a; refresh_token = r; expires_at = at_end })

unfoldable pub generate_token_pair : Manager → ℕ → ℕ → ℕ → String → ℕ → Result TokenPair
unfolding both_tokens
generate_token_pair m now user_id org_id role tv =
    both_tokens (now + m.token_expiry) (m.lib.sign (access_claims m now user_id org_id role tv))
      (m.lib.sign (refresh_claims m now user_id tv))

access_of : Parsed → Result Claims
access_of (valid c) = ok c
access_of expired = err token_expired
access_of invalid = err invalid_token

unfoldable pub validate_access_token : Manager → ℕ → String → Result Claims
unfolding access_of
validate_access_token m now token = access_of (m.lib.parse now token)

with_subject : {A : Type 0} → Option ℕ → (ℕ → A) → Result A
with_subject none f = err invalid_token
with_subject (some id) f = ok (f id)

refresh_of : Parsed → Result (ℕ × ℕ)
unfolding with_subject
refresh_of (valid c) =
    if str_eq c.issuer refresh_issuer
    then with_subject c.subject (λ id. (id, c.token_version))
    else err invalid_token
refresh_of expired = err invalid_token
refresh_of invalid = err invalid_token

-- The user and the token version.
unfoldable pub validate_refresh_token : Manager → ℕ → String → Result (ℕ × ℕ)
unfolding refresh_of
validate_refresh_token m now token = refresh_of (m.lib.parse now token)

abbrev pub state_claims : ℕ → String → String → Claims
state_claims now jti provider = record blank {
  issuer = state_issuer;
  jti = jti;
  issued_at = numeric_date now;
  expires_at = some (numeric_date (now + state_expiry));
  provider = provider;
}

-- `jti` is `uuid.New()`.
unfoldable pub generate_oauth_state : Manager → ℕ → String → String → Result String
generate_oauth_state m now jti provider = m.lib.sign (state_claims now jti provider)

state_of : String → Parsed → Result (Unit {0})
state_of expected (valid c) =
    if str_eq c.issuer state_issuer
    then (if str_eq c.provider expected then ok tt else err invalid_token)
    else err invalid_token
state_of expected expired = err token_expired
state_of expected invalid = err invalid_token

unfoldable pub parse_oauth_state : Manager → ℕ → String → String → Result (Unit {0})
unfolding state_of
parse_oauth_state m now token expected = state_of expected (m.lib.parse now token)

abbrev pub challenge_claims : ℕ → String → ℕ → Claims
challenge_claims now jti user_id = record blank {
  issuer = challenge_issuer;
  subject = some user_id;
  jti = jti;
  issued_at = numeric_date now;
  expires_at = some (numeric_date (now + challenge_expiry));
  user_id = user_id;
}

unfoldable pub generate_oauth_2fa_challenge : Manager → ℕ → String → ℕ → Result String
generate_oauth_2fa_challenge m now jti user_id = m.lib.sign (challenge_claims now jti user_id)

-- What a challenge says: the user, its id and its end, the zero time where it has none.
pub record Challenge : Type 0 where
  pub user_id : ℕ
  pub jti : String
  pub expires_at : ℕ

time_of : Option ℕ → ℕ
time_of none = 0
time_of (some t) = t

abbrev challenge_for : Claims → ℕ → Challenge
unfolding time_of
challenge_for c id = record { user_id = id; jti = c.jti; expires_at = time_of c.expires_at }

challenge_of : Parsed → Result Challenge
unfolding with_subject challenge_for
challenge_of (valid c) =
    if str_eq c.issuer challenge_issuer
    then (if c.user_id == 0
        then with_subject c.subject (challenge_for c)
        else ok (challenge_for c c.user_id))
    else err invalid_token
challenge_of expired = err token_expired
challenge_of invalid = err invalid_token

unfoldable pub validate_oauth_2fa_challenge : Manager → ℕ → String → Result Challenge
unfolding challenge_of
validate_oauth_2fa_challenge m now token = challenge_of (m.lib.parse now token)
