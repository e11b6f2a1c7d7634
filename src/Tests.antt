-- ===== src/Tests.antt =====
-- Concrete instances of the interfaces, and the theorems applied to concrete inputs.
pub mod Instances
mod BudgetExamples
mod IdempotencyExamples
mod ChunkingExamples
mod RetrievalExamples
mod AuditExamples
mod RagExamples
mod GroundingExamples
mod PromptExamples
mod SearchExamples
mod IngestionExamples
mod EvaluationExamples
mod DocumentExamples
