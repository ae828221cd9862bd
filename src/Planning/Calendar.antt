-- ===== src/Planning/Calendar.antt =====
-- src/mini_rag/capabilities/calendar/validator.py, with `normalize_time_requirement` of
-- src/mini_rag/capabilities/datetime/resolver.py. A plan's task is the executor's task with the other
-- keys that the gates read.
mod Contracts
mod Validation
mod Clarification
unfoldable pub use Contracts.*
unfoldable pub use Validation.*
unfoldable pub use Clarification.*
