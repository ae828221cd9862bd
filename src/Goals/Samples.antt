-- ===== src/Goals/Samples.antt =====
-- A goal, a state and callbacks to run the goal checks on.
use mini_enterprise_rag_agen.Common.{
  ℕ, eq_iff, sym, zero, suc, ap, ◌+++◌, full_match, ◌+◌, String, ◌≡◌, refl, false, none, some, List,
  [], ◌∷◌, ◌++◌,
}
use mini_enterprise_rag_agen.Execution.Executor.{RegisteredTool, value}
use mini_enterprise_rag_agen.Orchestration.React.{Task, empty_task, ExecutionResult, AgentState}
use mini_enterprise_rag_agen.Orchestration.React.Rounds.{Callbacks}
use mini_enterprise_rag_agen.Tools.Calendar.{Event}
use mini_enterprise_rag_agen.Planning.Attendance.{no_filters}
use mini_enterprise_rag_agen.Planning.Calendar.{PlanTask}
use text.Mathlib.TextLemmas.{append_cancel_left, append-eq-nil_iff}
use mini_enterprise_rag_agen.Goals.Check.{ToolResult, TaskResult, Goal}
use mini_enterprise_rag_agen.Goals.Loop.{GoalKeys, Nodes}

abbrev pub event : Event
event = ("event_id", "EVT-20250102-0003") ∷ ("time", "15:00") ∷ []

abbrev pub tool_result : String → Event → List Event → ToolResult
tool_result status e events = record {
  status = some status;
  event_id = none;
  event = e;
  events = events;
}

abbrev pub result : String → ToolResult → TaskResult
result action r = record {
  kind = some "tool";
  tool_name = some "manage_company_calendar";
  action = some action;
  status = some "success";
  event_id = none;
  tool_input = [];
  tool_result = r;
  has_sources = false;
  has_supporting_sources = false;
  has_related_sources = false;
  skill_name = none;
  skill_result_name = none;
  skill_ok = false;
}

abbrev pub queried : TaskResult
queried = result "query" (tool_result "ok" [] (event ∷ []))

abbrev pub renewed : TaskResult
renewed = result "update" (tool_result "updated" event [])

abbrev pub goal : Goal
goal = record {
  goal_type = some "calendar_update";
  target = [];
  expected_result = ("time", "15:00") ∷ [];
}

abbrev pub goal_keys : GoalKeys ℕ
goal_keys = record {
  goal_contract = some goal;
  task_results = queried ∷ [];
  previous_tool_context = none;
  role = some "admin";
  question = some "move it";
  standalone_query = none;
  completion_check = none;
  completion_checks = [];
  goal_observations = [];
  safe_next_action_triggered = false;
  safe_next_action_source = none;
  rest = 0;
}

abbrev pub state : AgentState (GoalKeys ℕ)
state = record {
  task_queue = [];
  plan_tasks = record empty_task { task_id = some "goal_react_calendar_update" } ∷ [];
  completed_tasks = "goal_react_calendar_update" ∷ [];
  validation_status = some "valid";
  executable_tasks = [];
  observations = [];
  final_answer = none;
  intent = none;
  route = none;
  rest = goal_keys;
}

abbrev pub calendar : RegisteredTool ℕ
calendar = record {
  name = "manage_company_calendar";
  risk_level = "low";
  func = λ w payload. (w, value []);
}

-- Another injective text of a number: that many strokes.
unfoldable pub strokes : ℕ → String
strokes zero = ""
strokes (suc n) = "1" +++ strokes n

no_strokes : (n : ℕ) → ◌≡◌ {A = String} "" ("1" +++ strokes n) → ⊥
no_strokes n same =
    cc ((eq_iff "1" "").1 ((append-eq-nil_iff {p = "1"} {q = strokes n}).0 (sym same)).0)

pub strokes_injective : (m n : ℕ) → strokes m ≡ strokes n → m ≡ n
unfolding strokes
strokes_injective zero zero same = refl
strokes_injective zero (suc n) same = absurd (no_strokes n same)
strokes_injective (suc m) zero same = absurd (no_strokes m (sym same))
strokes_injective (suc m) (suc n) same =
    ap suc (strokes_injective m n (append_cancel_left "1" _ _ same))

abbrev pub details : Task → PlanTask
details task = record {
  attendance = record {
    task = task;
    employee_name = none;
    department = none;
    group_by = none;
    include_records = false;
    status_filter = none;
    status_filters = no_filters;
  };
  time_requirement = record {
    time_expression = none;
    absolute_date = none;
    date = none;
    date_range = none;
    time_reference_type = none;
    requires_current_datetime = false;
    needs_current_datetime = false;
  };
  has_selector = false;
}

abbrev pub nodes : Nodes ℕ ℕ
nodes = record {
  tool_registry = ("manage_company_calendar", calendar) ∷ [];
  get_role_policies = λ s. none;
  is_iso_date = λ s. full_match "dddd-dd-dd" s;
  details = details;
  str = strokes;
}

-- A call is counted, and its result is kept.
abbrev pub updates : Callbacks (GoalKeys ℕ)
updates = record {
  next_action = λ s n open_tasks. (s, none);
  call_tool = λ s task action. (
    record s {
      rest = record (s.rest) {
        task_results = s.rest.task_results ++ renewed ∷ [];
        rest = s.rest.rest + 1;
      };
    },
    record { status = some "success"; summary = some "done"; batch_results = [] },
  );
  search_rag =
      λ s task action. (s, record { status = some "success"; summary = none; batch_results = [] });
  dumps = λ d. "";
}

abbrev pub before : ExecutionResult
before = record { status = "success"; steps = []; finish_reason = "all tasks completed" }
