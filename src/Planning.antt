-- ===== src/Planning.antt =====
-- The gates that a plan passes before it is executed.
pub mod Tools
pub mod Attendance
pub mod EventId
pub mod Calendar
pub mod Gates
pub mod Examples
