-- ===== src/Lib.antt =====
-- A verification library for the question-answering agent of this repository (src/mini_rag).
--
-- The program answers questions of a company's staff. A request carries a role; a planner (a
-- language model) proposes tasks, tool calls on the calendar or attendance data and searches of the
-- knowledge bases; a bounded executor runs them behind permission checks; an answer is composed and
-- the turn is remembered. The language model, the clock, random values, hashes and SQLite stand
-- outside: they are arguments, callbacks or lists of rows here.
--
-- - Common: Python's texts, lists, sets and dicts as the program uses them. `lower` acts on the
--   ASCII capitals only; `strip` knows all of Unicode's white space.
-- - Security.Permissions: src/mini_rag/security/permissions.py and the catalog of
--   src/mini_rag/ingestion/kb_config.py, name by name. A raised PermissionError is `denied`.
--   Roles, tools and knowledge bases are proved about in its children Laws, Tools and Bases.
-- - Security.AuthStore: src/mini_rag/security/auth_store.py. The tables are lists of rows in
--   Rows, where each SQL statement is a function; a method takes the tables and returns the new
--   ones. The children Sessions, Passwords and Policies prove the methods correct; Seeding is what
--   every start does to the tables.
-- - Orchestration.React: src/mini_rag/orchestration/react_executor.py. A task, an action and the
--   agent's state are records of the keys that the executor reads; callbacks take the state and
--   return it. Guard is the scope check, Rounds and Run the loop, which is structural on the rounds
--   that are left. A raised ReActGuardrailViolation is `violated`. Facts, raw results and timings of
--   a step are left out.
-- - Memory.Store, Memory.Service: src/mini_rag/agent/context_store.py and
--   src/mini_rag/memory/service.py. The SQLite tables are lists of rows, AUTOINCREMENT a counter;
--   the language model, the removal of citations and the trace are callbacks. Refinement is the
--   contract of the store.
-- - Execution.Executor: src/mini_rag/execution/tool_executor.py, with `invoke` and `has_tool` of
--   src/mini_rag/tools/registry.py. A tool is a function on the world that may raise; an exception is
--   a value, and what the executor does not catch is `uncaught`. Gate is about the world, Audit about
--   the audit log.
-- - Tools.Calendar: src/mini_rag/tools/calendar_tool.py on its file backend. An event and a payload
--   are dicts of texts, the file is the list of its events; dates, `int` and number formats are the
--   parameter `Python`. The payloads are those that name a file under "file_path"; the branch for the
--   others, and the functions of the SQLite backend, are not modelled.
-- - Tools.Repository: src/mini_rag/tools/repositories/calendar_repository.py, the table as a list of
--   rows and every method of `CalendarRepository`.
-- - Planning: what a plan must pass before it runs. Tools, Attendance and Calendar are
--   `first_disallowed_tool_task` of src/mini_rag/planning/gates.py and the validators of
--   src/mini_rag/capabilities (attendance/validator.py, calendar/validator.py, and
--   `normalize_time_requirement` of datetime/resolver.py); EventId is the test of placeholder ids in
--   calendar/resolver.py; Gates composes them as `evaluate_capability_gates` does, and Gates.Apply
--   merges a decision into the payload. `classification_covers_current_message` is not modelled.
-- - Resolution: src/mini_rag/capabilities/calendar/resolver.py, which turns a calendar write without
--   a concrete event into writes of events that a query found. Selector chooses the events, Resolver
--   is `CalendarTaskResolver` with its two loops over the task queue; the messages and the shortened
--   candidates of a result are left out. Choice, Writes, Deletes and Updates are the proofs.
-- - Goals: whether the user's goal is reached. Check is `check_goal_completion` of
--   src/mini_rag/orchestration/completion.py; goal contracts are taken as they are given, their
--   derivation from a plan is not modelled. Reaches says, apart from that check, which task results
--   reach a calendar goal. Append, Loop and Loop.Rounds are
--   src/mini_rag/orchestration/goal_react.py, which no module of the repository calls: three checks
--   at most, each followed by at most one further run of the executor, and the search for a task id,
--   whose fuel is two tests more than there are ids in use. Goals uses Orchestration.React for the
--   runs and Planning for the safety of what it appends.
--
-- Not modelled: prompts and calls of language models, vector search, the HTTP interface, logging,
-- display text, relative dates, answer composition, ingestion, evaluation and skills.
pub mod Common
pub mod Security
pub mod Orchestration
pub mod Memory
pub mod Execution
pub mod Tools
pub mod Planning
pub mod Goals
pub mod Resolution
