-- ===== src/Rag.antt =====
-- The query pipeline, apps/api/app/services/rag/.
pub mod Orchestrator
pub mod Grounding
