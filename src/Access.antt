-- ===== src/Access.antt =====
-- Who may reach which project: apps/api/internal/service/authz_service.go and
-- apps/api/internal/api/v1/guards.go.
pub mod Authz
pub mod Guards
