-- ===== src/Resolution/Resolver.antt =====
-- `CalendarTaskResolver.resolve_updates` and `resolve_deletes` of
-- src/mini_rag/capabilities/calendar/resolver.py. `str` is Python's decimal text of a number. Messages
-- and the compact candidates, which are shown to the user, are left out of a result.
mod Sources
mod Expansion
mod Queue
unfoldable pub use Sources.*
unfoldable pub use Expansion.*
unfoldable pub use Queue.*
