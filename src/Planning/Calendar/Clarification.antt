-- ===== src/Planning/Calendar/Clarification.antt =====
-- `calendar_write_needs_clarification` of src/mini_rag/capabilities/calendar/validator.py.
use mini_enterprise_rag_agen.Common.{
  String, Bool, true, false, ◌&&◌, ◌||◌, not, Option, none, some, List, [], ◌∷◌, map, ◌==◌,
  if◌then◌else◌, strip, lower, text_or, mem, filter, any, is_empty, Dict, lookup,
}
use mini_enterprise_rag_agen.Orchestration.React.{input_action}
use mini_enterprise_rag_agen.Planning.EventId.{is_unresolved_calendar_event_id}
use mini_enterprise_rag_agen.Planning.Calendar.Contracts.{PlanTask, is_date_text}
use mini_enterprise_rag_agen.Planning.Calendar.Validation.{
  date_is_resolvable, input_text, is_calendar_tool, raw_action, depends_on_calendar_query,
}

unfoldable pub is_query_source : PlanTask → Bool
is_query_source t =
    is_calendar_tool t
    && lower (raw_action t) == "query"
    && (date_is_resolvable t
        || (is_date_text (strip (text_or (input_text t "start_date") ""))
            && is_date_text (strip (text_or (input_text t "end_date") ""))))

unfoldable pub has_executable_calendar_query_source : List PlanTask → Bool
has_executable_calendar_query_source tasks = any is_query_source tasks

-- The keys of the plan's payload that the gates read.
pub record GatePayload : Type 0 where
  pub selected_tool : Option String
  pub selected_action : Option String
  pub tool_input : Option (Dict String)
  pub standalone_query : Option String

abbrev pub target_writes : List String
target_writes = "update" ∷ "delete" ∷ []

unfoldable pub is_target_write : PlanTask → Bool
is_target_write t = is_calendar_tool t && mem (lower (raw_action t)) target_writes

abbrev pub payload_action : GatePayload → String
payload_action p = text_or p.selected_action (text_or (input_action p.tool_input) "")

abbrev pub payload_event_id : GatePayload → Option String
payload_event_id p = elim p.tool_input [ none ↦ none | some d ↦ lookup "event_id" d ]

unfoldable pub is_write_selected : GatePayload → Bool
is_write_selected p =
    strip (text_or p.selected_tool "") == "manage_company_calendar"
    && mem (lower (strip (payload_action p))) target_writes

-- `"*" not in allowed and action not in allowed`.
abbrev pub is_outside : List String → String → Bool
is_outside allowed action = not (mem "*" allowed) && not (mem action allowed)

-- The loop that returns False.
unfoldable pub has_forbidden_write : List String → List PlanTask → Bool
has_forbidden_write allowed writes =
    any
      (λ t.
        mem (lower (strip (raw_action t))) target_writes
        && is_outside allowed (lower (strip (raw_action t))))
      writes

-- The last loop: some write has no target.
unfoldable pub has_open_target : List PlanTask → List PlanTask → Bool
has_open_target tasks writes =
    any
      (λ t.
        is_unresolved_calendar_event_id (input_text t "event_id")
        && not (has_executable_calendar_query_source tasks || depends_on_calendar_query tasks t))
      writes

unfoldable pub calendar_write_needs_clarification :
    GatePayload → List PlanTask → Bool → List String → Bool
calendar_write_needs_clarification payload tasks has_previous_events allowed_actions =
    let allowed = map lower allowed_actions in
    let writes = filter is_target_write tasks in
    if is_write_selected payload && is_outside allowed (lower (strip (payload_action payload)))
    then false
    else if has_forbidden_write allowed writes
    then false
    else if is_write_selected payload
        && is_empty writes
        && is_unresolved_calendar_event_id (payload_event_id payload)
        && not (has_executable_calendar_query_source tasks)
    then true
    else if is_empty writes
    then false
    else if has_previous_events
    then false
    else has_open_target tasks writes
