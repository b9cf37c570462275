-- ===== src/Middleware.antt =====
-- apps/api/internal/api/middleware/auth.go: the limit on attempts, and the sessions.
pub mod RateLimit
pub mod Session
pub mod Requests
