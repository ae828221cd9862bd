-- ===== src/Resolution/Resolver/Sources.antt =====
-- The keys of the state that src/mini_rag/capabilities/calendar/resolver.py uses, the latest query and
-- the selector that a task is resolved with.
use mini_enterprise_rag_agen.Common.{
  String, Bool, ◌&&◌, not, Option, none, some, List, [], ◌∷◌, ◌++◌, ◌==◌, ◌+++◌, if◌then◌else◌,
  strip, lower, text_or, strip_prefix?, mem, filter, is_empty, is_some, Dict, full_match,
}
use mini_enterprise_rag_agen.Orchestration.React.{kind_of, tool_of, either, input_action}
use mini_enterprise_rag_agen.Tools.Calendar.{Event, get_or}
use mini_enterprise_rag_agen.Resolution.Selector.{
  Selector, WriteTask, is_no_selector, calendar_update_selector, sanitize_unresolved_event_selector,
  infer_selector_from_task_text, with_inferred, tool_input_of,
}

-- The events of a query, with its tool input.
pub record Source : Type 0 where
  pub tool_input : Dict String
  pub events : List Event

-- An entry of "task_results": that of a query, or the outcome of a resolution.
pub record ResultEntry : Type 0 where
  pub task_id : String
  pub tool_name : Option String
  pub action : Option String
  pub status : String
  pub source : Source

-- The keys of the state that the resolver uses. `observed` are the raw results of the observations
-- with the tool inputs, and `previous` is the previous tool context with its tool name.
pub record ResolverState : Type 0 where
  pub task_queue : List WriteTask
  pub task_results : List ResultEntry
  pub completed_tasks : List String
  pub observed : List Source
  pub previous : Option (Option String × Source)

-- The condition of `is_calendar_update_task` and `is_calendar_delete_task`.
unfoldable pub is_write_task : String → WriteTask → Bool
is_write_task action t =
    kind_of t.task == "tool"
    && tool_of t.task == "manage_company_calendar"
    && lower (strip (either t.task.action (input_action t.task.tool_input))) == action

-- The latest of the results that are queries.
unfoldable pub latest_result : List ResultEntry → Option Source
latest_result [] = none
latest_result (r ∷ results) = elim (latest_result results) [
  | some source ↦ some source
  | none ↦
      if text_or r.tool_name "" == "manage_company_calendar" && text_or r.action "" == "query"
      then some r.source
      else none
]

-- The latest of the sources that have events.
unfoldable pub latest_observed : List Source → Option Source
latest_observed [] = none
latest_observed (s ∷ sources) = elim (latest_observed sources) [
  | some source ↦ some source
  | none ↦ if is_empty s.events then none else some s
]

abbrev pub previous_source : Option (Option String × Source) → Option Source
previous_source none = none
previous_source (some (tool_name, source)) =
    if text_or tool_name "" == "manage_company_calendar" && not (is_empty source.events)
    then some source
    else none

unfoldable pub latest_calendar_query_events : ResolverState → Option Source
latest_calendar_query_events state = elim (latest_result state.task_results) [
  | some source ↦ some source
  | none ↦ elim (latest_observed state.observed) [
    | some source ↦ some source
    | none ↦ previous_source state.previous
  ]
]

-- The range of the query in place of a date that is no ISO date.
unfoldable pub enrich_selector_from_source_range : Selector → Dict String → Selector
enrich_selector_from_source_range selector source_input =
    let start_date = strip (get_or "start_date" "" source_input) in
    let end_date = strip (get_or "end_date" "" source_input) in
    let selector_date = strip (get_or "date" "" selector.fields) in
    if is_no_selector selector
    then selector
    else if not (selector_date == "")
        && not (full_match "dddd-dd-dd" selector_date)
        && not (start_date == "")
        && not (end_date == "")
    then record {
      fields = filter (λ (kv : String × String). not (kv.0 == "date")) selector.fields;
      date_range = elim selector.date_range [
        | none ↦ some (some start_date, some end_date)
        | some range ↦ some range
      ];
    }
    else selector

-- The selector that a task is resolved with.
unfoldable pub selector_of : WriteTask → Source → Selector
selector_of t source =
    enrich_selector_from_source_range
      (sanitize_unresolved_event_selector
        (with_inferred (calendar_update_selector t.selectors) (infer_selector_from_task_text t)))
      source.tool_input

-- `key not in dropped and not key.startswith("_")`.
unfoldable pub kept_input : List String → Dict String → Dict String
kept_input dropped input =
    filter
      (λ (kv : String × String). not (mem kv.0 dropped) && not (is_some (strip_prefix? "_" kv.0)))
      input

unfoldable pub append_calendar_resolution_result :
    ResolverState → WriteTask → String → String → ResolverState
append_calendar_resolution_result state t action status =
    let task_id = text_or t.task.task_id ("calendar_" +++ action) in
    if mem task_id state.completed_tasks then state else record state {
      task_results =
          state.task_results
          ++ record {
            task_id = task_id;
            tool_name = some "manage_company_calendar";
            action = some action;
            status = status;
            source = record {
              tool_input = kept_input ("query" ∷ "user_id" ∷ "role" ∷ []) (tool_input_of t);
              events = [];
            };
          }
            ∷ [];
      completed_tasks = state.completed_tasks ++ task_id ∷ [];
    }
