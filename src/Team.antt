-- ===== src/Team.antt =====
-- apps/api/internal/service/team_service.go: the members of an organization, its invitations and its
-- teams.
pub mod Members
pub mod Invites
pub mod Groups
