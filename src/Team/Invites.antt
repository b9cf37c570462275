-- ===== src/Team/Invites.antt =====
-- The invitations of team_service.go, and `emailDomainAllowed` of auth_service.go.
pub mod Accepting
pub mod Inviting
use orkai.Prelude.{
  ℕ, ◌+◌, ◌*◌, String, Bool, true, false, Option, none, some, List, [], ◌∷◌, ◌&&◌, ◌||◌, not, ◌==◌,
  ltb, str_eq, any, is_some, if◌then◌else◌,
}
use orkai.Prelude.Text.{trim_space}
use orkai.Prelude.Splits.{split_on}
use orkai.Result.{Result, ok, err, Error, no_rows, message}
use orkai.Exec.{Exec, pure, throw, lift, view, catch, throw_if, ignore, or_else, ◌>>=◌, ◌>>◌}
use orkai.Model.Accounts.{User, Invitation, minute}
use orkai.World.{World, request, notify}
use orkai.Store.Users as Users
use orkai.Store.Accounts.Invitations as Invitations
use orkai.Store.Accounts.Settings as Settings
use orkai.Team.Members.{is_known}

-- An account with the defaults of its columns.
abbrev pub new_user : ℕ → String → String → String → String → User
new_user org_id email password_hash display_name role = record {
  id = 0;
  created_at = 0;
  deleted_at = none;
  org_id = org_id;
  email = email;
  password_hash = password_hash;
  display_name = display_name;
  first_name = "";
  last_name = "";
  role = role;
  avatar_url = "";
  two_fa_secret = "";
  two_fa_enabled = false;
  token_version = 0;
  is_super_admin = false;
}

abbrev pub week : ℕ
week = 7 * 24 * 60 * minute

abbrev pub is_pending : String → ℕ → Invitation → Bool
is_pending email now inv =
    str_eq inv.email email && not (is_some inv.accepted_at) && ltb now inv.expires_at

abbrev known_invitations : Result (List Invitation) → List Invitation
known_invitations (ok invs) = invs
known_invitations (err e) = []

pub data InviteResult : Type 0 where
  created : User → InviteResult
  invited : Invitation → InviteResult

abbrev pub at_sign : ℕ
at_sign = 64

abbrev pub comma : ℕ
comma = 44

abbrev first_part : List String → String → String
first_part [] whole = whole
first_part (p ∷ ps) whole = if str_eq p "" then whole else p

unfoldable pub display_name_of : String → String
unfolding split_on
display_name_of email = first_part (split_on at_sign email) email

module _ (to_lower : String → String) where
  unfoldable domain_in : String → List String → Bool
  unfolding trim_space
  domain_in email_domain entries =
      any
        (λ e.
          not (str_eq (to_lower (trim_space e)) "")
          && str_eq email_domain (to_lower (trim_space e)))
        entries

  domain_of : List String → Option String
  unfolding trim_space
  domain_of (_ ∷ domain ∷ []) = some (to_lower (trim_space domain))
  domain_of _ = none

  has_domain : Option String → List String → Bool
  unfolding domain_in
  has_domain none entries = false
  has_domain (some domain) entries = domain_in domain entries

  unfoldable pub email_domain_allowed : String → String → Bool
  unfolding split_on trim_space has_domain domain_of
  email_domain_allowed email csv =
      if str_eq (trim_space csv) ""
      then true
      else has_domain (domain_of (split_on at_sign email)) (split_on comma (trim_space csv))

  unfoldable pub invite_google_only : ℕ → String → String → Exec World InviteResult
  unfolding display_name_of email_domain_allowed
  invite_google_only org_id email role = do
    enabled ← Settings.get request "google_oauth_enabled"
    throw_if (not (str_eq enabled "true"))
        (message "Google OAuth must be enabled to invite users in Google-only mode")
    client_id ← Settings.get request "google_oauth_client_id"
    client_secret ← Settings.get request "google_oauth_client_secret"
    throw_if (str_eq client_id "" || str_eq client_secret "")
        (message "Google OAuth must be configured to invite users in Google-only mode")
    allowed_domains ← Settings.get request "oauth_allowed_domains"
    throw_if (not (email_domain_allowed email allowed_domains))
        (message "email domain is not allowed")
    user ← Users.create request (new_user org_id email "" (display_name_of email) role)
    pure (created user)

  not_taken : ℕ → Result User → Exec World (Unit {0})
  not_taken org_id (ok user) = throw (
      message (
        if user.org_id == org_id
        then "user is already a member of this organization"
        else "a user with this email already exists"))
  not_taken org_id (err e) = pure tt

  unfoldable pub invite_by_mail : Result String → ℕ → ℕ → String → String → Exec World InviteResult
  invite_by_mail token org_id invited_by email role = do
    invs ← catch (Invitations.list_by_org request org_id)
    now ← view (λ w. w.now)
    throw_if (any (is_pending email now) (known_invitations invs))
        (message "an invitation is already pending for this email")
    token ← lift token
    inv ← Invitations.create request (record {
      id = 0;
      org_id = org_id;
      email = email;
      role = role;
      token = token;
      invited_by = some invited_by;
      expires_at = now + week;
      accepted_at = none;
    })
    pure (invited inv)

  -- `token` is the outcome of the random number generator.
  unfoldable pub invite_member : Result String → ℕ → ℕ → String → String → Exec World InviteResult
  unfolding not_taken trim_space invite_google_only invite_by_mail
  invite_member token org_id invited_by address role = do
    throw_if (not (is_known role)) (message "role must be 'admin' or 'member'")
    let email = to_lower (trim_space address)
    existing ← catch (Users.get_by_email request email)
    not_taken org_id existing
    google_only ← Settings.get request "auth_google_only"
    if str_eq google_only "true"
        then invite_google_only org_id email role
        else invite_by_mail token org_id invited_by email role

unfoldable pub accept_invitation : String → ℕ → Exec World (Unit {0})
accept_invitation token user_id = do
  inv ← or_else (Invitations.get_by_token request token) (message "invitation not found")
  now ← view (λ w. w.now)
  throw_if (ltb inv.expires_at now) (message "invitation has expired")
  throw_if (is_some inv.accepted_at) (message "invitation has already been accepted")
  user ← or_else (Users.get_by_id request user_id) (message "user not found")
  throw_if (not (str_eq user.email inv.email))
      (message "invitation was sent to a different email address")
  Users.update request (record user { org_id = inv.org_id; role = inv.role })
  Invitations.update request (record inv { accepted_at = some now })

abbrev hide_no_rows : {A : Type 0} → Error → Result A → Result A
hide_no_rows e (ok a) = ok a
hide_no_rows e (err no_rows) = err e
hide_no_rows e (err x) = err x

unfoldable pub cancel_invitation : ℕ → ℕ → Exec World (Unit {0})
unfolding notify
cancel_invitation org_id inv_id = do
  found ← catch (Invitations.get_by_id request inv_id)
  inv ← lift (hide_no_rows (message "invitation not found") found)
  throw_if (not (inv.org_id == org_id)) (message "invitation not found")
  Invitations.delete request inv_id
  notify org_id "invitation_cancelled" inv.email

unfoldable pub get_invitation_by_token : String → Exec World Invitation
get_invitation_by_token token = do
  inv ← Invitations.get_by_token request token
  now ← view (λ w. w.now)
  throw_if (ltb inv.expires_at now) (message "invitation has expired")
  throw_if (is_some inv.accepted_at) (message "invitation already accepted")
  pure inv

no_account : Result User → Exec World (Unit {0})
no_account (ok user) = throw (
    message "account already exists — log in first, then accept the invitation from your dashboard")
no_account (err e) = pure tt

-- `hash` is the outcome of bcrypt; `tokens` signs the pair of tokens for the new account.
unfoldable pub accept_with_register :
    {Tokens : Type 0}
    → Result String
    → (User → Result Tokens)
    → String
    → String
    → Exec World (User × Tokens)
unfolding get_invitation_by_token no_account
accept_with_register hash tokens token display_name = do
  inv ← get_invitation_by_token token
  existing ← catch (Users.get_by_email request inv.email)
  no_account existing
  hash ← lift hash
  user ← Users.create request (new_user inv.org_id inv.email hash display_name inv.role)
  now ← view (λ w. w.now)
  ignore (Invitations.update request (record inv { accepted_at = some now }))
  pair ← lift (tokens user)
  pure (user, pair)
