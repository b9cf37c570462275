-- ===== src/Store.antt =====
-- The repositories (apps/api/internal/store/pg), one child for each table.
pub mod Query
pub mod Users
pub mod Accounts
pub mod Projects
pub mod Owned
pub mod Deploys
pub mod Jobs
pub mod Reads
pub mod Atomic
pub mod Pages
