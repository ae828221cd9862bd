-- ===== src/Security.antt =====
-- The package `src/mini_rag/security`.
pub mod Permissions
pub mod AuthStore
mod Examples
mod AuthExamples
