-- ===== src/Pages.antt =====
-- The page deploy service (apps/api/internal/service/page_deploy_service.go and page_domain.go).
pub mod Env
pub mod Common
pub mod Requests
pub mod Domains
pub mod Job
pub mod Keeping
pub mod Service
