-- ===== src/Identity.antt =====
-- Identity (apps/api/src/identity): accounts, sessions, second factors and memberships.
pub mod Store
pub mod Sessions
pub mod Mfa
pub mod Values
pub mod Security
pub mod Login
pub mod Members
pub mod UseCases
