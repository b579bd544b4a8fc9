-- ===== src/Acme.antt =====
-- The ACME server of the backend (backend/src/acme).
pub mod Domain
pub mod Types
pub mod External
pub mod Jws
pub mod Urls
pub mod Authenticate
pub mod NewAccount
pub mod NewOrder
pub mod Challenge
pub mod Finalize
pub mod Revoke
pub mod Server
pub mod Transitions
pub mod Soundness
pub mod Isolation
pub mod Admin
pub mod System
mod Tests
