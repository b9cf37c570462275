-- ===== src/Auth/Sessions.antt =====
-- Registration, sign-in by password, refresh and logout. bcrypt and the random bytes are parameters.
pub mod Registering
pub mod Refreshing
use orkai.Prelude.{
  ℕ, String, Bool, true, false, Option, none, some, ◌&&◌, not, ◌==◌, ltb, str_eq, if◌then◌else◌,
}
use orkai.Result.{Result, ok, err, Error, message}
use orkai.Exec.{Exec, pure, lift, view, catch, throw, throw_if, or_else, ◌>>=◌, ◌>>◌}
use orkai.Model.Accounts.{User, Organization, role_admin}
use orkai.World.{World, request, tx}
use orkai.Store.Users as Users
use orkai.Store.Accounts.Settings as Settings
use orkai.Store.Accounts.Identities as Identities
use orkai.Auth.Jwt.{Manager, TokenPair, generate_token_pair, validate_refresh_token}
use orkai.Auth.Totp.{Hmac, verify_totp}

-- `GenerateFromPassword` and `CompareHashAndPassword`.
pub record Bcrypt : Type 0 where
  pub hash : String → Result String
  pub matches : String → String → Bool

pub record RegisterInput : Type 0 where
  pub email : String
  pub password : String
  pub display_name : String
  pub org_name : String

pub record LoginInput : Type 0 where
  pub email : String
  pub password : String
  pub two_fa_code : String

-- A session, or what is asked for in its place: the second factor, with a challenge where the first
-- was another provider.
pub data AuthResult : Type 0 where
  session : User → TokenPair → AuthResult
  requires_2fa : Option String → AuthResult

unfoldable pub get_setup_status : Exec World Bool
get_setup_status = do n ← Users.count_users request; pure (ltb 0 n)

abbrev pub founder : RegisterInput → String → ℕ → User
founder input hash org_id = record {
  id = 0;
  created_at = 0;
  deleted_at = none;
  org_id = org_id;
  email = input.email;
  password_hash = hash;
  display_name = input.display_name;
  first_name = "";
  last_name = "";
  role = role_admin;
  avatar_url = "";
  two_fa_secret = "";
  two_fa_enabled = false;
  token_version = 0;
  is_super_admin = true;
}

abbrev count_or_zero : Result ℕ → ℕ
count_or_zero (ok n) = n
count_or_zero (err e) = 0

abbrev is_ok : {A : Type 0} → Result A → Bool
is_ok (ok a) = true
is_ok (err e) = false

module _ (m : Manager) where
  unfoldable pub sign_in : User → Exec World AuthResult
  sign_in user = do
    now ← view (λ w. w.now)
    tokens ← lift (generate_token_pair m now user.id user.org_id user.role user.token_version)
    pure (AuthResult.session user tokens)

  unfoldable pub refresh : String → Exec World AuthResult
  unfolding sign_in
  refresh token = do
    now ← view (λ w. w.now)
    claims ← or_else (lift (validate_refresh_token m now token)) (message "invalid refresh token")
    user ← or_else (Users.get_by_id request claims.0) (message "user not found")
    throw_if (not (claims.1 == user.token_version))
        (message "session invalidated — please log in again")
    sign_in user

module _ (m : Manager) (bcrypt : Bcrypt) where
  found_email : Result User → Exec World (Unit {0})
  found_email (ok u) = throw (message "email already registered")
  found_email (err e) = pure tt

  create_founder : RegisterInput → String → Exec World User
  create_founder input hash = do
    org_id ←
        Identities.create_organization request
          (record { id = 0; deleted_at = none; name = input.org_name; description = "" })
    Users.create request (founder input hash org_id)

  -- The count's error is dropped, and so are the reasons for which no account is found.
  unfoldable pub register : RegisterInput → Exec World AuthResult
  unfolding found_email create_founder sign_in
  register input = do
    count ← catch (Users.count_users request)
    throw_if (ltb 0 (count_or_zero count))
        (message "registration is disabled — use team invitation to join")
    found ← catch (Users.get_by_email request input.email)
    found_email found
    hash ← lift (bcrypt.hash input.password)
    user ← tx (create_founder input hash)
    sign_in m user

  unfoldable pub check_password_login_allowed : User → Exec World (Unit {0})
  check_password_login_allowed user = if user.is_super_admin then pure tt else (do
    google_only ← Settings.get request "auth_google_only"
    throw_if (str_eq google_only "true") (message "password sign-in is disabled; use Google"))

  second_factor : Hmac → User → String → Exec World AuthResult
  unfolding sign_in
  second_factor hmac user code = do
    now ← view (λ w. w.now)
    throw_if (user.two_fa_enabled && not (verify_totp hmac now user.two_fa_secret code))
        (message "invalid two-factor authentication code")
    sign_in m user

  unfoldable pub login : Hmac → LoginInput → Exec World AuthResult
  unfolding check_password_login_allowed second_factor
  login hmac input = do
    user ← or_else (Users.get_by_email request input.email) (message "invalid credentials")
    check_password_login_allowed user
    throw_if (not (bcrypt.matches user.password_hash input.password))
        (message "invalid credentials")
    if user.two_fa_enabled && str_eq input.two_fa_code ""
        then pure (AuthResult.requires_2fa none)
        else second_factor hmac user input.two_fa_code

unfoldable pub logout : ℕ → Exec World (Unit {0})
logout user_id = Users.bump_token_version request user_id
