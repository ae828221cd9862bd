-- ===== src/Memory.antt =====
-- The memory of a conversation between its turns.
pub mod Store
pub mod Service
pub mod Examples
