-- ===== src/Goals.antt =====
-- The check that a goal was reached, and the bounded loop that acts on it.
pub mod Check
pub mod Reaches
pub mod Calendar
pub mod Append
pub mod Loop
pub mod Samples
pub mod Examples
