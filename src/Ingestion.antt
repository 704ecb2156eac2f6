-- ===== src/Ingestion.antt =====
-- The worker's normalization of raw events (apps/worker/src/event-ingestion.processor.ts).
pub mod Processor
pub mod Inserts
pub mod Normalizing
pub mod Causes
pub mod Rows
pub mod Histories
pub mod Again
