-- ===== src/AuthSession.antt =====
-- Access tokens and the sessions that they belong to (server/auth/session).
pub mod Identity
pub mod Types
pub mod Token
pub mod Service
pub mod Login
pub mod RoundTrip
pub mod Verified
pub mod Sound
pub mod Issue
pub mod Plans
pub mod Refused
