-- ===== src/Tests.antt =====
-- Runs at concrete inputs, and the theorems applied at them.
mod Outbox
mod Authorization
mod Incidents
mod Ingestion
mod Knowledge
mod Notifications
pub mod Sessions
mod SecondFactors
mod SignIn
mod Members
mod Registering
