-- ===== src/Model/Accounts.antt =====
-- Users, teams, invitations, API keys, projects and the accounts of other providers:
-- apps/api/internal/model/user.go, team.go, api_key.go, project.go, base.go, organization.go,
-- user_identity.go and used_oauth_challenge.go.
use orkai.Prelude.{ℕ, ◌*◌, String, Bool, Option, List}

abbrev pub second : ℕ
second = 1000000000

abbrev pub minute : ℕ
minute = 60 * second

-- `RoleAdmin` and `RoleMember`; a role is any text in the source too.
abbrev pub role_admin : String
role_admin = "admin"

abbrev pub role_member : String
role_member = "member"

pub record User : Type 0 where
  pub id : ℕ
  pub created_at : ℕ
  pub deleted_at : Option ℕ
  pub org_id : ℕ
  pub email : String
  pub password_hash : String
  pub display_name : String
  pub first_name : String
  pub last_name : String
  pub role : String
  pub avatar_url : String
  pub two_fa_secret : String
  pub two_fa_enabled : Bool
  pub token_version : ℕ
  pub is_super_admin : Bool

pub record Team : Type 0 where
  pub id : ℕ
  pub deleted_at : Option ℕ
  pub org_id : ℕ
  pub name : String
  pub description : String

pub record TeamMember : Type 0 where
  pub team_id : ℕ
  pub user_id : ℕ

pub record Invitation : Type 0 where
  pub id : ℕ
  pub org_id : ℕ
  pub email : String
  pub role : String
  pub token : String
  pub invited_by : Option ℕ
  pub expires_at : ℕ
  pub accepted_at : Option ℕ

pub record ApiKey : Type 0 where
  pub id : ℕ
  pub deleted_at : Option ℕ
  pub org_id : ℕ
  pub user_id : ℕ
  pub name : String
  pub key_prefix : String
  pub key_hash : String
  pub role : String
  pub last_used_at : Option ℕ
  pub expires_at : Option ℕ

-- The fields of a project that access control and deploys read.
pub record Project : Type 0 where
  pub id : ℕ
  pub deleted_at : Option ℕ
  pub org_id : ℕ
  pub team_id : ℕ
  pub name : String
  pub env_vars : List (String × String)

-- A managed database, a page, a worker or a cron job, as far as access control reads it.
pub record Owned : Type 0 where
  pub id : ℕ
  pub deleted_at : Option ℕ
  pub project_id : ℕ

-- A domain, as far as access control reads it.
pub record Domain : Type 0 where
  pub id : ℕ
  pub deleted_at : Option ℕ
  pub app_id : ℕ

pub record Organization : Type 0 where
  pub id : ℕ
  pub deleted_at : Option ℕ
  pub name : String
  pub description : String

pub record UserIdentity : Type 0 where
  pub id : ℕ
  pub deleted_at : Option ℕ
  pub user_id : ℕ
  pub provider : String
  pub subject : String
  pub email : String

pub record UsedOauthChallenge : Type 0 where
  pub jti : String
  pub expires_at : ℕ
