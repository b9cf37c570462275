-- ===== src/Auth.antt =====
-- Accounts and sessions: apps/api/internal/service/auth_service.go and apps/api/internal/auth/jwt.go.
pub mod Jwt
pub mod Totp
pub mod Sessions
pub mod Oauth
pub mod Profile
