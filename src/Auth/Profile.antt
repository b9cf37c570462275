-- ===== src/Auth/Profile.antt =====
-- The account's own changes: profile, password, second factor.
pub mod Passwords
pub mod Revoking
pub mod Overwriting
use orkai.Prelude.{
  ℕ, String, Bool, true, false, Option, none, some, List, [], ◌∷◌, ◌&&◌, not, str_eq, any,
  if◌then◌else◌,
}
use orkai.Prelude.Text.{trim_space}
use orkai.Result.{Result, ok, err, Error, message}
use orkai.Exec.{Exec, pure, lift, view, throw_if, or_else, ◌>>=◌, ◌>>◌}
use orkai.Model.Accounts.{User}
use orkai.World.{World, request, tx}
use orkai.Store.Users as Users
use orkai.Auth.Totp.{Hmac, verify_totp}
use orkai.Auth.Sessions.{Bcrypt}

abbrev predefined_avatars : List String
predefined_avatars =
    "bear" ∷ "cat" ∷ "dog" ∷ "fox" ∷ "koala" ∷ "lion" ∷ "monkey" ∷ "owl" ∷ "panda" ∷ "penguin"
    ∷ "rabbit" ∷ "tiger" ∷ "whale" ∷ "wolf" ∷ []

abbrev is_valid_avatar : String → Bool
is_valid_avatar avatar = any (λ a. str_eq a avatar) predefined_avatars

pub record UpdateProfileInput : Type 0 where
  pub first_name : Option String
  pub last_name : Option String
  pub display_name : Option String
  pub avatar_url : Option String

abbrev or_keep : Option String → String → String
or_keep none old = old
or_keep (some new) old = new

abbrev is_blank : Option String → Bool
unfolding trim_space
is_blank none = false
is_blank (some s) = str_eq (trim_space s) ""

abbrev is_unknown_avatar : Option String → Bool
is_unknown_avatar none = false
is_unknown_avatar (some a) = not (str_eq a "") && not (is_valid_avatar a)

abbrev pub edited : UpdateProfileInput → User → User
edited input user = record user {
  first_name = or_keep input.first_name user.first_name;
  last_name = or_keep input.last_name user.last_name;
  display_name = or_keep input.display_name user.display_name;
  avatar_url = or_keep input.avatar_url user.avatar_url;
}

-- From the row as it was read: the guards, and the write of the whole row.
unfoldable pub save_profile : UpdateProfileInput → User → Exec World User
unfolding trim_space
save_profile input user = do
  throw_if (is_blank input.display_name) (message "display name cannot be empty")
  throw_if (is_unknown_avatar input.avatar_url) (message "invalid avatar selection")
  Users.update request (edited input user)
  pure (edited input user)

unfoldable pub update_profile : ℕ → UpdateProfileInput → Exec World User
unfolding save_profile
update_profile user_id input = do
  user ← or_else (Users.get_by_id request user_id) (message "user not found")
  save_profile input user

set_password : ℕ → String → Exec World (Unit {0})
set_password user_id hash = do
  Users.update_password request user_id hash
  Users.bump_token_version request user_id

unfoldable pub change_password : Bcrypt → ℕ → String → String → Exec World (Unit {0})
unfolding set_password
change_password bcrypt user_id current new = do
  user ← or_else (Users.get_by_id request user_id) (message "user not found")
  throw_if (not (bcrypt.matches user.password_hash current))
      (message "current password is incorrect")
  hash ← lift (bcrypt.hash new)
  tx (set_password user_id hash)

-- `secret` is the outcome of the random number generator, in Base32.
unfoldable pub setup_2fa : ℕ → String → Exec World String
setup_2fa user_id secret = do
  user ← or_else (Users.get_by_id request user_id) (message "user not found")
  throw_if user.two_fa_enabled (message "2FA is already enabled")
  Users.update request (record user { two_fa_secret = secret })
  pure secret

set_2fa : ℕ → Bool → String → Exec World (Unit {0})
set_2fa user_id enabled secret = do
  Users.update_2fa request user_id enabled secret
  Users.bump_token_version request user_id

module _ (hmac : Hmac) where
  unfoldable pub verify_2fa : ℕ → String → Exec World (Unit {0})
  unfolding set_2fa
  verify_2fa user_id code = do
    user ← or_else (Users.get_by_id request user_id) (message "user not found")
    throw_if (str_eq user.two_fa_secret "") (message "2FA has not been set up; call setup first")
    now ← view (λ w. w.now)
    throw_if (not (verify_totp hmac now user.two_fa_secret code)) (message "invalid 2FA code")
    tx (set_2fa user_id true user.two_fa_secret)

  unfoldable pub disable_2fa : ℕ → String → Exec World (Unit {0})
  unfolding set_2fa
  disable_2fa user_id code = do
    user ← or_else (Users.get_by_id request user_id) (message "user not found")
    throw_if (not user.two_fa_enabled) (message "2FA is not enabled")
    now ← view (λ w. w.now)
    throw_if (not (verify_totp hmac now user.two_fa_secret code)) (message "invalid 2FA code")
    tx (set_2fa user_id false "")
