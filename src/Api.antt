-- ===== src/Api.antt =====
-- The management API: backend/src/api.rs, with the state and the errors that its handlers share.
pub mod Tests
pub mod Errors
pub mod State
pub mod Outcomes
pub mod Groups
pub mod AuditLog
pub mod Import
pub mod Revocation
pub mod Certificates
pub mod Users
pub mod ServiceAccounts
pub mod Replace
pub mod Chain
pub mod Validate
pub mod Cas
pub mod Issue
pub mod Calls
