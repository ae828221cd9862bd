-- ===== src/Resolution.antt =====
-- The resolution of calendar writes in src/mini_rag/capabilities/calendar/resolver.py: from the events
-- of a query to tasks that name one event each.
pub mod Selector
pub mod Choice
pub mod Resolver
pub mod Writes
pub mod Inherit
pub mod Deletes
pub mod Updates
pub mod Examples
