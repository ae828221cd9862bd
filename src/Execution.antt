-- ===== src/Execution.antt =====
-- The execution of a selected tool behind its gates, and the tools.
pub mod Executor
pub mod Examples
