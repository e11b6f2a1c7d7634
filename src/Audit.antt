-- ===== src/Audit.antt =====
-- Audit events, packages/shared/python/sentinelrag_shared/audit/.
pub mod Reconciliation
pub mod Event
pub mod Service
