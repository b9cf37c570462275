-- ===== src/Store/Accounts.antt =====
-- The repositories of teams, memberships, invitations, API keys and settings:
-- apps/api/internal/store/pg/team_store.go, team_member_store.go, invitation_store.go,
-- api_key_store.go and setting_store.go.
pub mod Teams
pub mod Invitations
pub mod ApiKeys
pub mod Settings
pub mod Identities
