-- ===== src/Goals/Check/Results.antt =====
-- The task results that src/mini_rag/orchestration/completion.py reads, and its tests of them.
use mini_enterprise_rag_agen.Common.{
  String, Bool, true, false, ◌&&◌, ◌||◌, not, Option, none, some, List, [], ◌∷◌, ◌==◌,
  if◌then◌else◌, lower, text_or, mem, filter, Dict, lookup,
}
use mini_enterprise_rag_agen.Orchestration.React.{Task}
use mini_enterprise_rag_agen.Planning.EventId.{is_unresolved_calendar_event_id}
use mini_enterprise_rag_agen.Tools.Calendar.{Event, update_fields, get_or}

pub record ToolResult : Type 0 where
  pub status : Option String
  pub event_id : Option String
  pub event : Event
  pub events : List Event

-- `has_sources` and the like: the key holds a list that is not empty.
pub record TaskResult : Type 0 where
  pub kind : Option String
  pub tool_name : Option String
  pub action : Option String
  pub status : Option String
  pub event_id : Option String
  pub tool_input : Dict String
  pub tool_result : ToolResult
  pub has_sources : Bool
  pub has_supporting_sources : Bool
  pub has_related_sources : Bool
  pub skill_name : Option String
  pub skill_result_name : Option String
  pub skill_ok : Bool

pub record Goal : Type 0 where
  pub goal_type : Option String
  pub target : Dict String
  pub expected_result : Dict String

pub record PreviousContext : Type 0 where
  pub domain : Option String
  pub tool_name : Option String
  pub tool_input : Dict String
  pub event : Event
  pub events : List Event

pub record SafeNextAction : Type 0 where
  pub source : String
  pub reason : String
  pub task : Task

pub record CompletionCheckResult : Type 0 where
  pub status : String
  pub goal_type : String
  pub reason : String
  pub expected_result : Dict String
  pub safe_next_action : Option SafeNextAction

abbrev pub checked : String → String → String → Dict String → CompletionCheckResult
checked status goal_type reason expected = record {
  status = status;
  goal_type = goal_type;
  reason = reason;
  expected_result = expected;
  safe_next_action = none;
}

abbrev pub is_text : Option String → String → Bool
is_text none s = false
is_text (some x) s = x == s

unfoldable pub clean_expected_result : Dict String → Dict String
clean_expected_result value =
    filter
      (λ (kv : String × String).
        (mem kv.0 update_fields || kv.0 == "date_expression") && not (kv.1 == ""))
      value

unfoldable pub calendar_results : String → List TaskResult → List TaskResult
calendar_results action results =
    filter
      (λ (r : TaskResult).
        is_text r.tool_name "manage_company_calendar" && lower (text_or r.action "") == action)
      results

-- `_calendar_update_success` and `_calendar_create_success`, which differ in the status alone.
unfoldable pub write_success : String → TaskResult → Bool
write_success status r =
    lower (text_or r.tool_result.status "") == status
    && not (
        is_unresolved_calendar_event_id (
          some
            (text_or (lookup "event_id" r.tool_result.event) (text_or r.tool_result.event_id ""))))

unfoldable pub calendar_delete_success : TaskResult → Bool
calendar_delete_success r =
    lower (text_or r.tool_result.status "") == "deleted"
    && not (
        is_unresolved_calendar_event_id (
          some (
            text_or r.tool_result.event_id
              (text_or r.event_id (get_or "event_id" "" r.tool_input)))))

-- `not _calendar_expected_mismatches(expected, event)`.
unfoldable pub matches_expected : Dict String → Event → Bool
matches_expected [] event = true
matches_expected ((field, value) ∷ expected) event =
    (field == "date_expression" || value == get_or field "" event)
    && matches_expected expected event

-- The events of the latest query, if there is a query.
unfoldable pub latest_calendar_query : List TaskResult → Option (List Event)
latest_calendar_query [] = none
latest_calendar_query (r ∷ results) =
    let later = latest_calendar_query results in
    elim later [
      | some events ↦ some events
      | none ↦
          if is_text r.tool_name "manage_company_calendar" && lower (text_or r.action "") == "query"
          then some r.tool_result.events
          else none
    ]
