-- ===== src/Outbox.antt =====
-- The transactional outbox of the worker (apps/worker/src/outbox-dispatcher.ts).
pub mod Jobs
pub mod Store
pub mod Dispatcher
pub mod System
pub mod Producers
