-- ===== src/Planning/Examples.antt =====
-- Concrete plans before the gates.
use mini_enterprise_rag_agen.Common.{
  ℕ, Option, text_or, String, ◌≡◌, refl, false, List, not, ◌&&◌, ◌||◌, none, some, [], ◌∷◌, ◌==◌,
  is_some, all, mem, lookup, insert, filter, lower, strip, contains, any, values, keys, sorted,
  to_set, filter_map, strip_prefix?,
}
use mini_enterprise_rag_agen.Security.Permissions.{
  RolePolicyMap, normalize_role, normalize_action, can_use_tool_action, get_allowed_tool_actions,
  role_actions, actions_of, policy_of, policy_actions, allowed_actions_from_role_policy,
  tool_permissions,
}
use mini_enterprise_rag_agen.Orchestration.React.{Task, empty_task, kind_of, tool_of, input_action}
use mini_enterprise_rag_agen.Execution.Executor.{RegisteredTool, ToolRegistry, value}
use mini_enterprise_rag_agen.Planning.Tools.{
  is_registered, allowed_actions, requested_action, is_disallowed, first_disallowed_tool_task,
  is_permitted, first_disallowed_tool_task-permitted,
}
use mini_enterprise_rag_agen.Planning.Attendance.{
  AttendanceTask, filter_text, has_status_filter, is_broad, attendance_scope_issue,
  is_attendance_task, validate_each, validate_attendance_tasks, is_own_scope,
  validate_attendance_tasks-status,
}
use mini_enterprise_rag_agen.Planning.EventId.{is_unresolved_calendar_event_id}
use mini_enterprise_rag_agen.Planning.Calendar.{
  is_write_selected, PlanTask, GatePayload, is_target_write, has_forbidden_write, is_calendar_tool,
  calendar_write_needs_clarification,
}
use mini_enterprise_rag_agen.Planning.Gates.{
  selects_calendar_write, mentions, has_calendar_action, asked_text, GateState, permission_decision,
  calendar_write_ability_question_requires_confirmation, evaluate_capability_gates,
}
use mini_enterprise_rag_agen.Planning.Gates.Apply.{PlannerPayload, apply, apply_capability_gates}
use mini_enterprise_rag_agen.Planning.Gates.Order.{evaluate_capability_gates-forbidden}

abbrev calendar : RegisteredTool ℕ
calendar = record {
  name = "manage_company_calendar";
  risk_level = "low";
  func = λ w payload. (w, value []);
}

abbrev tools : ToolRegistry ℕ
tools = ("manage_company_calendar", calendar) ∷ []

abbrev no_policies : RolePolicyMap
no_policies = none

abbrev calendar_task : String → Task
calendar_task action = record empty_task {
  task_id = some "t1";
  kind = some "Tool";
  tool = some "manage_company_calendar";
  action = some action;
}

running : Unit {0}
unfolding is_registered allowed_actions requested_action is_disallowed first_disallowed_tool_task
    is_permitted has_status_filter is_broad attendance_scope_issue is_attendance_task validate_each
    validate_attendance_tasks is_own_scope normalize_role normalize_action can_use_tool_action
    get_allowed_tool_actions role_actions actions_of policy_of policy_actions
    allowed_actions_from_role_policy tool_permissions kind_of tool_of input_action mem lookup insert
    filter lower strip contains any all values keys sorted to_set filter_map strip_prefix?
running = tt

deletion_stopped :
    first_disallowed_tool_task tools no_policies
      (calendar_task "query" ∷ calendar_task "delete" ∷ [])
      "hr"
    ≡ some (calendar_task "delete")
unfolding running
deletion_stopped = refl

abbrev attendance : String → String → AttendanceTask
attendance name objective = record {
  task = record empty_task {
    task_id = some "t1";
    kind = some "tool";
    tool = some "query_attendance_summary";
    objective = some objective;
  };
  employee_name = some name;
  department = none;
  group_by = none;
  include_records = false;
  status_filter = none;
  status_filters = filter_text "late";
}

scopes :
    ((validate_attendance_tasks (attendance "" "谁迟到" ∷ []) (some "user")).status ≡ "refused")
    × ((validate_attendance_tasks (attendance "Li" "谁迟到" ∷ []) (some "user")).status ≡ "valid")
    × ((validate_attendance_tasks (attendance "" "谁迟到" ∷ []) (some "HR")).status ≡ "valid")
    × ((validate_attendance_tasks (attendance "Li" "" ∷ []) (some "finance")).status ≡ "refused")
unfolding running
scopes = (refl, refl, refl, refl)

first_disallowed_tool_task-permitted_example :
    not (is_some (first_disallowed_tool_task tools no_policies (calendar_task "query" ∷ []) "hr"))
    ≡ all (is_permitted tools no_policies "hr") (calendar_task "query" ∷ [])
first_disallowed_tool_task-permitted_example =
    first_disallowed_tool_task-permitted tools no_policies (calendar_task "query" ∷ []) "hr"

validate_attendance_tasks-status_example :
    ((validate_attendance_tasks (attendance "Li" "" ∷ []) (some "user")).status == "valid") ≡ (
      mem (normalize_role (some "user")) ("hr" ∷ "admin" ∷ [])
      || all
          (λ t.
            not (kind_of t.task == "tool" && text_or t.task.tool "" == "query_attendance_summary")
            || is_own_scope (normalize_role (some "user")) t)
          (attendance "Li" "" ∷ []))
validate_attendance_tasks-status_example =
    validate_attendance_tasks-status (attendance "Li" "" ∷ []) (some "user")

abbrev plan_task : Task → PlanTask
plan_task task = record {
  attendance = record (attendance "" "") { task = task };
  time_requirement = record {
    time_expression = none;
    absolute_date = none;
    date = none;
    date_range = none;
    time_reference_type = none;
    requires_current_datetime = false;
    needs_current_datetime = false;
  };
  has_selector = false;
}

abbrev payload : GatePayload
payload = record {
  selected_tool = some "manage_company_calendar";
  selected_action = some "delete";
  tool_input = none;
  standalone_query = some "delete the review";
}

abbrev gate_state : GateState
gate_state = record {
  question = some "delete the review";
  standalone_query = none;
  has_previous_events = false;
}

abbrev deletion : List PlanTask
deletion = plan_task (calendar_task "delete") ∷ []

gating : Unit {0}
unfolding running is_unresolved_calendar_event_id is_target_write has_forbidden_write
    is_calendar_tool calendar_write_ability_question_requires_confirmation asked_text mentions
    has_calendar_action selects_calendar_write
gating = tt

evaluate_capability_gates-forbidden_example :
    (task : Task) × (evaluate_capability_gates tools no_policies payload deletion "hr" gate_state
      ≡ some (permission_decision task))
unfolding gating
evaluate_capability_gates-forbidden_example =
    evaluate_capability_gates-forbidden tools no_policies payload deletion "hr" gate_state refl refl

abbrev planner_payload : PlannerPayload
planner_payload = record {
  gate = payload;
  route = some "tool";
  intent = some "calendar";
  topic = none;
  normalization_reason = none;
  required_tools = "manage_company_calendar" ∷ [];
  tasks = deletion;
  strategy = "sequential";
  validation_status = none;
  validation_issues = [];
  missing_required_slots = [];
}

stopped_plan : Option PlannerPayload → List String
stopped_plan none = "passed" ∷ []
stopped_plan (some p) = text_or p.intent "" ∷ p.required_tools

deletion_replaced :
    stopped_plan (apply_capability_gates tools no_policies planner_payload deletion "hr" gate_state)
    ≡ "permission_required" ∷ []
unfolding gating stopped_plan apply apply_capability_gates evaluate_capability_gates
    calendar_write_needs_clarification is_write_selected
deletion_replaced = refl
