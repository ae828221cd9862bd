-- ===== src/Planning/Calendar/Validation.antt =====
-- `validate_calendar_tasks` of src/mini_rag/capabilities/calendar/validator.py.
use mini_enterprise_rag_agen.Common.{
  String, Bool, ◌&&◌, ◌||◌, not, Option, none, some, List, [], ◌∷◌, ◌++◌, ◌==◌, ◌+++◌,
  if◌then◌else◌, strip, lower, text_or, or_else, mem, filter, any, is_empty, is_some, lookup,
}
use mini_enterprise_rag_agen.Orchestration.React.{
  kind_of, task_id_of, dependencies_of, input_action,
}
use mini_enterprise_rag_agen.Orchestration.React.Guard.{join}
use mini_enterprise_rag_agen.Planning.Attendance.{
  ValidationIssue, ValidationResult, valid_result, none_if_empty,
}
use mini_enterprise_rag_agen.Planning.EventId.{is_unresolved_calendar_event_id}
use mini_enterprise_rag_agen.Planning.Calendar.Contracts.{
  PlanTask, task_of, is_date_text, normalize_time_requirement,
}

unfoldable pub date_is_resolvable : PlanTask → Bool
date_is_resolvable t =
    let contract = normalize_time_requirement t.time_requirement in
    contract.requires_current_datetime
    || is_some contract.absolute_date
    || is_some contract.date_range

abbrev pub input_text : PlanTask → String → Option String
input_text t field = elim (task_of t).tool_input [ none ↦ none | some d ↦ lookup field d ]

unfoldable pub is_calendar_tool : PlanTask → Bool
is_calendar_tool t =
    kind_of (task_of t) == "tool" && text_or (task_of t).tool "" == "manage_company_calendar"

-- `str(task.get("action") or tool_input.get("action") or "")`.
abbrev pub raw_action : PlanTask → String
raw_action t = text_or (task_of t).action (text_or (input_action (task_of t).tool_input) "")

unfoldable pub calendar_action : PlanTask → String
calendar_action t = or_else (lower (strip (or_else (raw_action t) "query"))) "query"

unfoldable pub has_query_source : List PlanTask → Bool
has_query_source before = any (λ t. is_calendar_tool t && calendar_action t == "query") before

unfoldable pub depends_on_calendar_query : List PlanTask → PlanTask → Bool
depends_on_calendar_query tasks t =
    let deps = dependencies_of (task_of t) in
    not (is_empty deps)
    && any
        (λ c.
          is_calendar_tool c && mem (task_id_of (task_of c)) deps && calendar_action c == "query")
        tasks

abbrev issue_of : PlanTask → String → String → String → ValidationIssue
issue_of t code field message = record {
  code = code;
  message = message;
  layer = "validator";
  task_id = none_if_empty (task_of t).task_id;
  field = some field;
}

unfoldable pub validate_date_fields : PlanTask → List String → List ValidationIssue
validate_date_fields t [] = []
validate_date_fields t (field ∷ fields) =
    let rest = validate_date_fields t fields in
    let value = strip (text_or (input_text t field) "") in
    if value == "" || is_date_text value
    then rest
    else issue_of t "calendar_symbolic_date" field
        "Calendar date fields must be resolved to YYYY-MM-DD before real tools."
      ∷ rest

unfoldable pub missing_fields : PlanTask → List String
missing_fields t =
    filter
      (λ field.
        strip (text_or (input_text t field) "") == ""
        && not (field == "date" && date_is_resolvable t))
      ("title" ∷ "date" ∷ "time" ∷ [])

unfoldable pub create_issues : PlanTask → List ValidationIssue
create_issues t =
    (if is_empty (missing_fields t)
      then []
      else issue_of t "calendar_create_missing_required_fields" (join "," (missing_fields t))
          "Calendar create requires title, date, and time before writing."
        ∷ [])
    ++ validate_date_fields t ("date" ∷ [])

unfoldable pub write_issues :
    List PlanTask → List PlanTask → PlanTask → String → List ValidationIssue
write_issues tasks before t action =
    (if is_unresolved_calendar_event_id (input_text t "event_id")
        && not t.has_selector
        && not (has_query_source before)
        && not (depends_on_calendar_query tasks t)
      then issue_of t ("calendar_" +++ action +++ "_missing_event_id") "event_id" (
          "Calendar " +++ action
          +++ " requires a concrete event_id or a prior query resolution step.")
        ∷ []
      else [])
    ++ (if action == "update" then validate_date_fields t ("date" ∷ []) else [])

-- The issues of one task; `before` are the tasks in front of it.
unfoldable pub task_issues : List PlanTask → List PlanTask → PlanTask → List ValidationIssue
task_issues tasks before t =
    let action = calendar_action t in
    if not (is_calendar_tool t)
    then []
    else if action == "query"
    then validate_date_fields t ("start_date" ∷ "end_date" ∷ [])
    else if action == "create"
    then create_issues t
    else if action == "update" || action == "delete"
    then write_issues tasks before t action
    else []

unfoldable pub all_issues : List PlanTask → List PlanTask → List PlanTask → List ValidationIssue
all_issues tasks before [] = []
all_issues tasks before (t ∷ rest) =
    task_issues tasks before t ++ all_issues tasks (before ++ t ∷ []) rest

abbrev verdict_of : List ValidationIssue → ValidationResult
verdict_of [] = valid_result
verdict_of (issue ∷ issues) = record {
  status = "needs_clarification";
  issues = issue ∷ issues;
  reason = issue.message;
}

unfoldable pub validate_calendar_tasks : List PlanTask → ValidationResult
validate_calendar_tasks tasks = verdict_of (all_issues tasks [] tasks)
