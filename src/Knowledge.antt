-- ===== src/Knowledge.antt =====
-- The retrieval policy (packages/domain/src/knowledge/rag-policy.ts).
pub mod Chunks
