-- ===== src/Incidents.antt =====
-- Incidents: their life cycle (packages/domain/src/incidents/incident-policy.ts), their repository
-- and use cases (apps/api/src/incidents) and the jobs about them (apps/worker/src).
pub mod Policy
pub mod Store
pub mod Repository
pub mod Mutations
pub mod Sla
pub mod Effects
pub mod Invariant
pub mod Versions
pub mod UseCases
pub mod Histories
pub mod Writes
pub mod Concurrency
pub mod Alerts
