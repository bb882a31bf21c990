-- ===== src/Mfa.antt =====
-- Two-factor authentication: packages/backend/src/services/MfaService.ts over MfaRedisStore.ts,
-- with the audit log and CryptoService that it calls.
pub mod Store
pub mod Service
pub mod Calls
pub mod Replay
pub mod Users
pub mod Consistent
pub mod Codes
pub mod Enrol
pub mod Audited
mod Tests
