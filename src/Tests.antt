-- ===== src/Tests.antt =====
-- Runs of the models at concrete inputs.
pub mod Data
pub mod Access
pub mod Tokens
pub mod Alerts
pub mod Decisions
pub mod Caching
pub mod Memories
pub mod Providers
pub mod Signing
pub mod Sealing
pub mod SignedHttp
pub mod Settings
