-- ===== src/Model.antt =====
-- The rows of the database and their enumerations (apps/api/internal/model).
-- A UUID is a number, `uuid.Nil` is 0. A time is a number of nanoseconds.
pub mod Accounts
pub mod Deploys
pub mod Jobs
pub mod Pages
