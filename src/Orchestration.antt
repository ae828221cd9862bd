-- ===== src/Orchestration.antt =====
-- The package src/mini_rag/orchestration.
pub mod React
mod Examples
