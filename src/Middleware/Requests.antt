-- ===== src/Middleware/Requests.antt =====
-- Who a request comes from: `Auth`, `WSAuth`, `RequireRole` and `RequireSetupSecret` of auth.go. A middleware
-- that lets the request pass returns what it sets in the context; the answer with which it aborts is
-- its error. `strings.EqualFold` and SHA-256 are parameters.
pub mod Outsiders
use Prim.Native.Char.{code}
use Prim.Native.String as Text
use Prim.Native.String.{slice, len}
use orkai.Prelude.{
  ℕ, ◌+◌, ◌-◌, ◌*◌, String, Bool, true, false, Option, none, some, List, [], ◌∷◌, not, ◌==◌, ltb,
  leb, str_eq, any, if◌then◌else◌,
}
use orkai.Result.{Result, ok, err, Error, no_rows, problem}
use orkai.Exec.{Exec, pure, throw, lift, view, catch, throw_if, ◌>>=◌, ◌>>◌}
use orkai.Model.Accounts.{User, ApiKey, minute}
use orkai.World.{World, request}
use orkai.Store.Users as Users
use orkai.Auth.Jwt.{Manager, Claims, validate_access_token}
use orkai.Keys as Keys
use orkai.Access.Guards.{Caller}

abbrev pub space : ℕ
space = 32

-- `strings.SplitN(s, sep, 2)`, where there are two parts.
with_char : Text.String → Option (String × String) → Option (String × String)
with_char c none = none
with_char c (some (a, b)) = some (Text.◌++◌ c a, b)

unfoldable pub cut : ℕ → String → Option (String × String)
unfolding with_char
cut sep Text.[] = none
cut sep (Text.◌∷◌ c s) =
    let rest = cut sep s in if code c == sep then some ("", s) else with_char (Text.◌∷◌ c "") rest

abbrev pub has_prefix : String → String → Bool
has_prefix s prefix = str_eq (slice s 0 (len prefix)) prefix

version_of : Result User → Result ℕ
version_of (ok u) = ok u.token_version
version_of (err e) = err e

-- `currentVersion`, by what the cache holds for the user.
unfoldable pub current_version : Option ℕ → ℕ → Exec World ℕ
unfolding version_of
current_version (some v) user_id = pure v
current_version none user_id = do
  user ← catch (Users.get_by_id request user_id)
  lift (version_of user)

session_invalidated : Error
session_invalidated = problem 401 "session invalidated"

check_version : Claims → Result ℕ → Exec World (Unit {0})
unfolding session_invalidated
check_version claims (ok current) =
    throw_if (not (claims.token_version == current)) session_invalidated
check_version claims (err no_rows) = throw session_invalidated
check_version claims (err e) = throw (problem 500 "authentication check failed")

unfoldable pub validate_claims : Option ℕ → Claims → Exec World (Unit {0})
unfolding check_version
validate_claims cached claims = do
  current ← catch (current_version cached claims.user_id)
  check_version claims current

abbrev pub caller_of : Claims → Caller
caller_of c = record { user_id = c.user_id; role = c.role; org_id = c.org_id }

caller_of_key : ApiKey → Caller
caller_of_key k = record { user_id = k.user_id; role = k.role; org_id = k.org_id }

-- The callers of requests, each with the key whose use is to be recorded.
abbrev pub Passed : Type 0
Passed = Caller × Option ℕ

key_answer : Result ApiKey → Result Passed
unfolding caller_of_key
key_answer (ok k) = ok (caller_of_key k, some k.id)
key_answer (err (problem status detail)) = err (problem status detail)
key_answer (err e) = err (problem 500 "authentication check failed")

or_answer : (Error → String) → Result Claims → Result Claims
or_answer text (ok c) = ok c
or_answer text (err e) = err (problem 401 (text e))

-- `cache` is what the cache of versions holds for a user.
module _ (m : Manager) (cache : ℕ → Option ℕ) where
  -- The first argument is the answer's text for an error.
  unfoldable pub with_token : (Error → String) → String → Exec World Passed
  unfolding or_answer validate_claims
  with_token text token = do
    now ← view (λ w. w.now)
    claims ← lift (or_answer text (validate_access_token m now token))
    validate_claims (cache claims.user_id) claims
    pure (caller_of claims, none)

  -- There may be no service for API keys.
  unfoldable pub authenticate_api_key : (String → String) → Bool → String → Exec World Passed
  unfolding key_answer
  authenticate_api_key hash false token = throw (problem 401 "invalid api key")
  authenticate_api_key hash true token = do
    key ← catch (Keys.get_by_hash (hash token))
    lift (key_answer key)

  by_parts :
      (Error → String)
      → (String → String → Bool)
      → (String → String)
      → Bool
      → Option (String × String)
      → Exec World Passed
  by_parts text equal_fold hash has_keys none = throw (problem 401 "invalid authorization format")
  by_parts text equal_fold hash has_keys (some (scheme, token)) = do
    throw_if (not (equal_fold scheme "bearer")) (problem 401 "invalid authorization format")
    if has_prefix token Keys.api_key_prefix
        then authenticate_api_key hash has_keys token
        else with_token text token

  -- `text` is `err.Error()`; the last argument is the header `Authorization`, empty where there is none.
  unfoldable pub auth :
      (Error → String)
      → (String → String → Bool)
      → (String → String)
      → Bool
      → String
      → Exec World Passed
  unfolding by_parts cut
  auth text equal_fold hash has_keys header = do
    throw_if (str_eq header "") (problem 401 "missing authorization header")
    by_parts text equal_fold hash has_keys (cut space header)

  after_scheme : Option (String × String) → String
  after_scheme none = ""
  after_scheme (some (scheme, token)) = token

  -- The token of the query, or else of the header, whatever its scheme.
  unfoldable pub ws_auth : String → String → Exec World Passed
  unfolding after_scheme cut
  ws_auth query header = do
    let token = if str_eq query "" then after_scheme (cut space header) else query
    throw_if (str_eq token "") (problem 401 "authentication required")
    with_token (λ e. "invalid token") token

unfoldable pub require_role : List String → Caller → Result (Unit {0})
require_role roles caller =
    if any (λ r. str_eq caller.role r) roles
    then ok tt
    else err (problem 403 "insufficient permissions")

unfoldable pub require_setup_secret : String → String → Result (Unit {0})
require_setup_secret secret provided =
    if str_eq provided ""
    then err (problem 401 "setup secret required")
    else if not (str_eq provided secret)
    then err (problem 403 "invalid setup secret")
    else ok tt

-- The times at which the use of a key was recorded last.
abbrev pub LastUsed : Type 0
LastUsed = ℕ → Option ℕ

abbrev pub last_used_interval : ℕ
last_used_interval = 5 * minute

abbrev is_recent : ℕ → Option ℕ → Bool
is_recent now none = false
is_recent now (some last) = ltb (now - last) last_used_interval

abbrev keep_recent : ℕ → Option ℕ → Option ℕ
keep_recent now none = none
keep_recent now (some last) = if leb last_used_interval (now - last) then none else some last

-- Is the use to be recorded in the database, and the times after it?
unfoldable pub touch_last_used : ℕ → ℕ → LastUsed → Bool × LastUsed
touch_last_used now key last_used =
    if is_recent now (last_used key)
    then (false, last_used)
    else (true, λ k. if k == key then some now else keep_recent now (last_used k))
