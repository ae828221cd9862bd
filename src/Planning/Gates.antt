-- ===== src/Planning/Gates.antt =====
-- `evaluate_capability_gates` of src/mini_rag/planning/gates.py. Of the
-- state the gates read three texts and whether the previous context holds events.
pub mod Apply
pub mod Order
use mini_enterprise_rag_agen.Common.{
  String, Bool, true, false, ◌&&◌, ◌||◌, not, Option, none, some, List, [], ◌∷◌, map, ◌==◌, ◌+++◌,
  if◌then◌else◌, lower, text_or, contains, mem, filter_map, any, is_empty, is_some, Dict, lookup,
}
use mini_enterprise_rag_agen.Security.Permissions.{RolePolicyMap}
use mini_enterprise_rag_agen.Orchestration.React.{Task, kind_of, either, input_action}
use mini_enterprise_rag_agen.Execution.Executor.{ToolRegistry}
use mini_enterprise_rag_agen.Planning.Tools.{allowed_actions, first_disallowed_tool_task}
use mini_enterprise_rag_agen.Planning.Attendance.{
  AttendanceTask, ValidationIssue, ValidationResult, validate_attendance_tasks,
}
use mini_enterprise_rag_agen.Planning.Calendar.{
  PlanTask, GatePayload, task_of, raw_action, payload_action, is_calendar_tool,
  validate_calendar_tasks, calendar_write_needs_clarification,
}

pub record GateState : Type 0 where
  pub question : Option String
  pub standalone_query : Option String
  pub has_previous_events : Bool

pub record CapabilityGateDecision : Type 0 where
  pub route : String
  pub intent : String
  pub topic : String
  pub normalization_reason : String
  pub validation_status : Option String
  pub validation_issues : List ValidationIssue
  pub missing_required_slots : List String

abbrev pub write_action_names : List String
write_action_names = "create" ∷ "update" ∷ "delete" ∷ []

abbrev pub newline : String → String → String
newline a b = a +++ "\n" +++ b

-- The three texts, joined by line ends.
unfoldable pub asked_text : GatePayload → GateState → String
asked_text payload state =
    newline (text_or payload.standalone_query "")
      (newline (text_or state.question "") (text_or state.standalone_query ""))

unfoldable pub mentions : List String → String → Bool
mentions tokens text = any (λ token. contains token text) tokens

unfoldable pub has_calendar_action : List String → List PlanTask → Bool
has_calendar_action actions tasks =
    any (λ t. is_calendar_tool t && mem (lower (raw_action t)) actions) tasks

unfoldable pub selects_calendar_write : GatePayload → Bool
selects_calendar_write payload =
    text_or payload.selected_tool "" == "manage_company_calendar"
    && mem (lower (payload_action payload)) write_action_names

unfoldable pub calendar_write_ability_question_requires_confirmation :
    GatePayload → List PlanTask → GateState → Bool
calendar_write_ability_question_requires_confirmation payload tasks state =
    let text = asked_text payload state in
    if not (has_calendar_action write_action_names tasks) && not (selects_calendar_write payload)
    then false
    else if mentions ("查询" ∷ "查一下" ∷ "查看" ∷ []) text && has_calendar_action ("query" ∷ []) tasks
    then false
    else if not (mentions ("?" ∷ "？" ∷ []) text)
    then false
    else mentions ("能不能" ∷ "能否" ∷ "可不可以" ∷ "可以不可以" ∷ "是否可以" ∷ "可以吗" ∷ []) text

abbrev pub question_decision : CapabilityGateDecision
question_decision = record {
  route = "direct";
  intent = "need_clarification";
  topic = "calendar_write_confirmation_question";
  normalization_reason = "calendar write is phrased as an ability question";
  validation_status = some "needs_clarification";
  validation_issues = [];
  missing_required_slots = [];
}

abbrev pub clarification_decision : CapabilityGateDecision
clarification_decision = record {
  route = "direct";
  intent = "need_clarification";
  topic = "calendar_write_clarification";
  normalization_reason = "calendar write target unresolved";
  validation_status = none;
  validation_issues = [];
  missing_required_slots = [];
}

abbrev pub permission_decision : Task → CapabilityGateDecision
permission_decision task = record {
  route = "direct";
  intent = "permission_required";
  topic =
      either task.tool task.tool_name
      +++ "."
      +++ text_or task.action (text_or (input_action task.tool_input) "*")
      +++ ".permission_required";
  normalization_reason = "task action not visible";
  validation_status = some "refused";
  validation_issues = [];
  missing_required_slots = [];
}

abbrev pub attendance_decision : ValidationResult → CapabilityGateDecision
attendance_decision result = record {
  route = "direct";
  intent = if result.status == "refused" then "permission_required" else result.status;
  topic = "attendance.permission_required";
  normalization_reason = text_or (some result.reason) "attendance capability validation failed";
  validation_status = some result.status;
  validation_issues = result.issues;
  missing_required_slots = [];
}

-- `issue.field`, where it is set.
abbrev pub slot_of : ValidationIssue → Option String
slot_of issue = elim issue.field [ none ↦ none | some f ↦ if f == "" then none else some f ]

abbrev pub calendar_decision : ValidationResult → CapabilityGateDecision
calendar_decision result = record {
  route = "direct";
  intent = if result.status == "needs_clarification" then "need_clarification" else result.status;
  topic = "calendar_validation";
  normalization_reason = text_or (some result.reason) "calendar capability validation failed";
  validation_status = some result.status;
  validation_issues = result.issues;
  missing_required_slots = filter_map slot_of result.issues;
}

module _ {W : Type 0} (registry : ToolRegistry W) (policies : RolePolicyMap) where
  -- The gates on the validators, the last ones.
  unfoldable pub validator_gates : List PlanTask → String → Option CapabilityGateDecision
  validator_gates tasks role =
      let attendance =
        validate_attendance_tasks (map (λ (t : PlanTask). t.attendance) tasks) (some role) in
      let calendar = validate_calendar_tasks tasks in
      if not (attendance.status == "valid")
      then some (attendance_decision attendance)
      else if not (calendar.status == "valid")
      then some (calendar_decision calendar)
      else none

  unfoldable pub evaluate_capability_gates :
      GatePayload → List PlanTask → String → GateState → Option CapabilityGateDecision
  evaluate_capability_gates payload tasks role state =
      if calendar_write_ability_question_requires_confirmation payload tasks state
      then some question_decision
      else if calendar_write_needs_clarification payload tasks state.has_previous_events
          (allowed_actions registry policies "manage_company_calendar" role)
      then some clarification_decision
      else elim (first_disallowed_tool_task registry policies (map task_of tasks) role) [
        | some task ↦ some (permission_decision task)
        | none ↦ validator_gates tasks role
      ]
