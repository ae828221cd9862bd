-- ===== src/Goals/Check.antt =====
-- `check_goal_completion` of src/mini_rag/orchestration/completion.py. Results, events and goals are
-- records of the keys that it reads; a key that is missing, or whose value is no dict or list, is
-- empty. `observed_result`, which only the trace shows, is left out.
mod Results
mod NextAction
mod Verdicts
unfoldable pub use Results.*
unfoldable pub use NextAction.*
unfoldable pub use Verdicts.*
