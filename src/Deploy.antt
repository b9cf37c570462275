-- ===== src/Deploy.antt =====
-- The deploy service (apps/api/internal/service/deploy_service.go and build_service.go). The
-- orchestrator's targets, the builder and the registries are the environment: a record of the
-- outcomes of the calls that one job makes.
pub mod Env
pub mod Common
pub mod Build
pub mod Execute
pub mod Requests
