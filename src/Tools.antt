-- ===== src/Tools.antt =====
-- The business tools.
pub mod Calendar
pub mod Repository
pub mod Examples
