-- ===== src/Resolution/Inherit.antt =====
-- `inherit_calendar_event_ids_from_previous_context` of
-- src/mini_rag/capabilities/calendar/resolver.py. The marker of an inherited id in the tool input and
-- the observation, which nothing reads again, are left out.
use mini_enterprise_rag_agen.Common.{
  String, Bool, ◌&&◌, Option, none, some, List, [], map, ◌==◌, if◌then◌else◌, lower, text_or, any,
  lookup, insert,
}
use mini_enterprise_rag_agen.Orchestration.React.{Task, kind_of, either, input_action}
use mini_enterprise_rag_agen.Planning.EventId.{is_unresolved_calendar_event_id}
use mini_enterprise_rag_agen.Goals.Check.{PreviousContext, single_previous_calendar_event_id}

-- `str(task.get("tool") or task.get("tool_name") or "")`.
abbrev raw_tool : Task → String
raw_tool task = either task.tool task.tool_name

abbrev raw_action : Task → String
raw_action task = lower (either task.action (input_action task.tool_input))

unfoldable pub queries_calendar : Task → Bool
queries_calendar task =
    kind_of task == "tool"
    && raw_tool task == "manage_company_calendar"
    && raw_action task == "query"

abbrev pub event_id_in : Task → Option String
event_id_in task = elim task.tool_input [ none ↦ none | some d ↦ lookup "event_id" d ]

-- An update without a concrete event.
unfoldable pub needs_event_id : Task → Bool
needs_event_id task =
    text_or task.kind "" == "tool"
    && raw_tool task == "manage_company_calendar"
    && raw_action task == "update"
    && is_unresolved_calendar_event_id (event_id_in task)

unfoldable pub inherit_one : String → Task → Task
inherit_one event_id task =
    if needs_event_id task
    then record task {
      tool_input =
          some (insert "event_id" event_id (elim task.tool_input [ none ↦ [] | some d ↦ d ]));
    }
    else task

unfoldable pub inherit_calendar_event_ids_from_previous_context :
    Option PreviousContext → List Task → List Task
inherit_calendar_event_ids_from_previous_context previous tasks =
    let inherited_event_id = single_previous_calendar_event_id previous in
    if any queries_calendar tasks
    then tasks
    else if inherited_event_id == ""
    then tasks
    else map (inherit_one inherited_event_id) tasks
