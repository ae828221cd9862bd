-- ===== src/Goals/Check/NextAction.antt =====
-- The next action that src/mini_rag/orchestration/completion.py offers for an open goal.
use mini_enterprise_rag_agen.Common.{
  String, Bool, ◌&&◌, not, Option, none, some, List, [], ◌∷◌, ◌==◌, if◌then◌else◌, strip, text_or,
  mem, filter, is_empty, Dict, lookup, insert,
}
use mini_enterprise_rag_agen.Orchestration.React.{Task, empty_task}
use mini_enterprise_rag_agen.Planning.EventId.{is_unresolved_calendar_event_id}
use mini_enterprise_rag_agen.Tools.Calendar.{Event, update_fields, get_or}
use mini_enterprise_rag_agen.Goals.Check.Results.{
  PreviousContext, CompletionCheckResult, checked, is_text,
}

unfoldable pub build_safe_calendar_update_task : String → Dict String → Task
build_safe_calendar_update_task event_id expected = record empty_task {
  task_id = some "goal_react_calendar_update";
  kind = some "tool";
  objective = some "根据 goal_contract 补执行缺失的日程更新";
  tool = some "manage_company_calendar";
  tool_name = some "manage_company_calendar";
  action = some "update";
  tool_input = some (
      insert "event_id" event_id (
        insert "action" "update" (
          filter (λ (kv : String × String). mem kv.0 update_fields && not (kv.1 == "")) expected)));
}

unfoldable pub build_safe_calendar_delete_task : String → Task
build_safe_calendar_delete_task event_id = record empty_task {
  task_id = some "goal_react_calendar_delete";
  kind = some "tool";
  objective = some "根据 goal_contract 补执行缺失的日程删除";
  tool = some "manage_company_calendar";
  tool_name = some "manage_company_calendar";
  action = some "delete";
  tool_input = some (("action", "delete") ∷ ("event_id", event_id) ∷ []);
}

abbrev only_event : List Event → Option String
only_event (event ∷ []) = lookup "event_id" event
only_event _ = none

unfoldable pub single_previous_calendar_event_id : Option PreviousContext → String
single_previous_calendar_event_id none = ""
single_previous_calendar_event_id (some p) =
    let named = lookup "event_id" p.tool_input in
    let shown = lookup "event_id" p.event in
    if not (is_text p.domain "calendar") && not (is_text p.tool_name "manage_company_calendar")
    then ""
    else if not (is_unresolved_calendar_event_id named)
    then strip (text_or named "")
    else if not (is_unresolved_calendar_event_id shown)
    then strip (text_or shown "")
    else if not (is_unresolved_calendar_event_id (only_event p.events))
    then strip (text_or (only_event p.events) "")
    else ""

abbrev pub with_safe : CompletionCheckResult → String → Task → CompletionCheckResult
with_safe check reason task = record check {
  safe_next_action = some (record { source = "deterministic"; reason = reason; task = task });
}

-- What follows a query: `goal_type`, the reason of an open goal, and the task for one event.
unfoldable pub after_query :
    String → String → Bool → Dict String → (String → Task) → List Event → CompletionCheckResult
after_query goal_type reason needs_expected expected build [] =
    checked "failed" goal_type "not_found" expected
after_query goal_type reason needs_expected expected build (first ∷ (second ∷ events)) =
    checked "needs_clarification" goal_type "multiple_candidates" expected
after_query goal_type reason needs_expected expected build (event ∷ []) =
    let event_id = strip (get_or "event_id" "" event) in
    if needs_expected && is_empty expected
    then checked "needs_clarification" goal_type "missing_expected_result" expected
    else if is_unresolved_calendar_event_id (some event_id)
    then checked "failed" goal_type "query_result_missing_event_id" expected
    else with_safe (checked "incomplete" goal_type reason expected)
        "unique_calendar_event_from_query" (build event_id)
