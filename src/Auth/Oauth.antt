-- ===== src/Auth/Oauth.antt =====
-- Sign-in through another provider, with its second factor. The provider's answer and the case mapping
-- `strings.ToLower` are parameters.
pub mod Consumed
pub mod Attempt
pub mod Once
use orkai.Prelude.{ℕ, String, Bool, true, false, Option, none, some, not, if◌then◌else◌}
use orkai.Result.{Result, ok, err, Error, message}
use orkai.Exec.{Exec, pure, lift, view, catch, throw_if, or_else, ◌>>=◌, ◌>>◌}
use orkai.Model.Accounts.{User, UserIdentity}
use orkai.World.{World, request}
use orkai.Store.Users as Users
use orkai.Store.Accounts.Settings as Settings
use orkai.Store.Accounts.Identities as Identities
use orkai.Team.Invites.{email_domain_allowed}
use orkai.Auth.Jwt.{Manager, generate_oauth_2fa_challenge, validate_oauth_2fa_challenge}
use orkai.Auth.Totp.{Hmac, verify_totp}
use orkai.Auth.Sessions.{AuthResult, sign_in}

-- `oauth.UserIdentity`
pub record Identity : Type 0 where
  pub subject : String
  pub email : String
  pub email_verified : Bool

abbrev pub no_account : Error
no_account = message "no_account"

abbrev link : String → Identity → ℕ → UserIdentity
link provider identity user_id = record {
  id = 0;
  deleted_at = none;
  user_id = user_id;
  provider = provider;
  subject = identity.subject;
  email = identity.email;
}

account_of : String → Identity → Result UserIdentity → Exec World User
account_of provider identity (ok linked) =
    or_else (Users.get_by_id request linked.user_id) no_account
account_of provider identity (err e) = do
  user ← or_else (Users.get_by_email request identity.email) no_account
  Identities.create_identity request (link provider identity user.id)
  pure user

module _ (m : Manager) where
  -- `jti` is the new challenge's id.
  challenged : String → User → Exec World AuthResult
  challenged jti user = do
    now ← view (λ w. w.now)
    challenge ← lift (generate_oauth_2fa_challenge m now jti user.id)
    pure (AuthResult.requires_2fa (some challenge))

  unfoldable pub login_with_oauth :
      (String → String) → String → String → Identity → Exec World AuthResult
  unfolding account_of challenged
  login_with_oauth to_lower jti provider identity = do
    throw_if (not identity.email_verified) (message "email_not_verified")
    domains ← Settings.get request "oauth_allowed_domains"
    throw_if (not (email_domain_allowed to_lower identity.email domains))
        (message "domain_not_allowed")
    linked ← catch (Identities.get_by_provider_subject request provider identity.subject)
    user ← account_of provider identity linked
    if user.two_fa_enabled then challenged jti user else sign_in m user

  -- The challenge is used up before the code is checked.
  unfoldable pub complete_oauth_2fa : Hmac → String → String → Exec World AuthResult
  complete_oauth_2fa hmac challenge code = do
    now ← view (λ w. w.now)
    claims ←
        or_else (lift (validate_oauth_2fa_challenge m now challenge))
          (message "invalid or expired OAuth challenge")
    user ← or_else (Users.get_by_id request claims.user_id) (message "user not found")
    throw_if (not user.two_fa_enabled)
        (message "two-factor authentication is not enabled for this account")
    fresh ← Identities.consume request claims.jti claims.expires_at
    throw_if (not fresh) (message "invalid or expired OAuth challenge")
    throw_if (not (verify_totp hmac now user.two_fa_secret code))
        (message "invalid two-factor authentication code")
    sign_in m user
