-- ===== src/Keys.antt =====
-- API keys: apps/api/internal/service/api_key_service.go and apps/api/internal/auth/apikey.go.
pub mod Outcomes
use orkai.Prelude.{
  ℕ, String, Bool, true, false, Option, none, some, not, ◌&&◌, ltb, leb, str_eq, if◌then◌else◌,
}
use Prim.Native.String.{slice, len, ◌++◌}
use orkai.Prelude.Text.{trim_space}
use orkai.Result.{Result, ok, err, Error, no_rows, problem, wrapped}
use orkai.Exec.{Exec, pure, throw, lift, view, catch, throw_if, ◌>>=◌, ◌>>◌}
use orkai.Model.Accounts.{ApiKey, role_admin, role_member}
use orkai.World.{World, Context, request, notify}
use orkai.Store.Accounts.ApiKeys as ApiKeys

abbrev pub api_key_prefix : String
api_key_prefix = "ork_"

abbrev pub display_prefix_len : ℕ
display_prefix_len = 12

pub record NewKey : Type 0 where
  pub raw : String
  pub prefix : String
  pub hash : String

-- `body` is the outcome of the random number generator, in hexadecimal; `hash` is SHA-256 and
-- `hex.EncodeToString`.
unfoldable pub generate_api_key : (String → String) → Result String → Result NewKey
generate_api_key hash (err e) = err (wrapped "generate api key" e)
generate_api_key hash (ok body) =
    let raw = api_key_prefix ++ body in
    ok (record {
      raw = raw;
      prefix = if ltb display_prefix_len (len raw) then slice raw 0 display_prefix_len else raw;
      hash = hash raw;
    })

abbrev pub role_refused : String → String → Bool
role_refused caller_role requested =
    not (str_eq caller_role role_admin) && not (str_eq requested role_member)

-- The time is in the past, or is now.
abbrev pub not_future : Option ℕ → ℕ → Bool
not_future none now = false
not_future (some t) now = leb t now

pub record CreateInput : Type 0 where
  pub user_id : ℕ
  pub org_id : ℕ
  pub caller_role : String
  pub name : String
  pub role : String
  pub expires_at : Option ℕ

abbrev pub new_api_key : CreateInput → NewKey → String → ApiKey
new_api_key input key name = record {
  id = 0;
  deleted_at = none;
  org_id = input.org_id;
  user_id = input.user_id;
  name = name;
  key_prefix = key.prefix;
  key_hash = key.hash;
  role = input.role;
  last_used_at = none;
  expires_at = input.expires_at;
}

-- The raw key, shown once, and the row.
unfoldable pub create :
    (String → String) → Result String → CreateInput → Exec World (String × ApiKey)
unfolding generate_api_key trim_space
create hash body input = do
  throw_if (str_eq (trim_space input.name) "") (problem 400 "name is required")
  throw_if (not (str_eq input.role role_admin) && not (str_eq input.role role_member))
      (problem 400 "role must be 'admin' or 'member'")
  throw_if (role_refused input.caller_role input.role)
      (problem 403 "members may only create member-scoped keys")
  now ← view (λ w. w.now)
  throw_if (not_future input.expires_at now) (problem 400 "expires_at must be in the future")
  key ← lift (generate_api_key hash body)
  row ← ApiKeys.create request (new_api_key input key (trim_space input.name))
  pure (key.raw, row)

abbrev missing : {A : Type 0} → Error → Result A → Result A
missing e (ok a) = ok a
missing e (err no_rows) = err e
missing e (err x) = err x

unfoldable pub revoke : ℕ → ℕ → Exec World (Unit {0})
unfolding notify
revoke user_id key_id = do
  found ← catch (ApiKeys.get_by_id_for_user request key_id user_id)
  key ← lift (missing (problem 404 "api key not found") found)
  deleted ← catch (ApiKeys.delete request key_id user_id)
  lift (missing (problem 404 "api key not found") deleted)
  notify key.org_id "api_key_revoked" key.name

abbrev pub is_expired : Option ℕ → ℕ → Bool
is_expired none now = false
is_expired (some t) now = ltb t now

unfoldable pub get_by_hash : String → Exec World ApiKey
get_by_hash hash = do
  found ← catch (ApiKeys.get_by_hash request hash)
  key ← lift (missing (problem 401 "invalid api key") found)
  now ← view (λ w. w.now)
  throw_if (is_expired key.expires_at now) (problem 401 "api key expired")
  pure key
