-- ===== src/Tests.antt =====
-- The theorems at concrete inputs.
mod Data
mod Deploys
mod Teams
mod Entry
mod Queues
mod Monitoring
mod Tokens
mod Pages
mod Accounts
mod Releases
