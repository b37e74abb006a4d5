-- ===== src/Auth.antt =====
-- internal/auth: who calls, whether the call is fresh, and who gets a certificate.
pub mod Identity
pub mod Signer
pub mod Replay
pub mod Tenants
pub mod Bootstrap
pub mod Renew
pub mod HttpSig
pub mod Sealed
