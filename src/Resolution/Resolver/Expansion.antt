-- ===== src/Resolution/Resolver/Expansion.antt =====
-- What `CalendarTaskResolver` of src/mini_rag/capabilities/calendar/resolver.py makes of one task.
use mini_enterprise_rag_agen.Common.{
  ℕ, leb, eqb, ◌+◌, String, Bool, true, ◌&&◌, not, Option, none, some, List, [], ◌∷◌, ◌==◌, ◌+++◌,
  if◌then◌else◌, strip, lower, text_or, filter, is_empty, length, Dict, lookup, insert,
}
use mini_enterprise_rag_agen.Tools.Calendar.{Event, get_or, update_fields}
use mini_enterprise_rag_agen.Planning.EventId.{is_unresolved_calendar_event_id}
use mini_enterprise_rag_agen.Resolution.Selector.{
  WriteTask, is_no_selector, put_default, select_calendar_events, tool_input_of,
  calendar_all_selector_requested,
}
use mini_enterprise_rag_agen.Resolution.Resolver.Sources.{
  Source, is_write_task, selector_of, kept_input,
}

-- What becomes of a task: tasks in the queue, or a result with this status.
pub data Resolution : Type 0 where
  queued : List WriteTask → Resolution
  expanded : List WriteTask → Resolution
  reported : String → Resolution

abbrev pub event_id_of : Event → String
event_id_of event = strip (get_or "event_id" "" event)

module _ (str : ℕ → String) where
  -- The tool input of the write of one event.
  unfoldable pub write_input : String → List String → WriteTask → Source → Event → Dict String
  write_input action dropped t source event =
      let file_path =
        text_or (lookup "file_path" (tool_input_of t)) (get_or "file_path" "" source.tool_input) in
      let input =
        insert "event_id" (event_id_of event)
          (insert "action" action (kept_input dropped (tool_input_of t))) in
      if file_path == "" then input else put_default "file_path" file_path input

  abbrev pub numbered_id : String → ℕ → String
  numbered_id task_id index = if eqb index 1 then task_id else task_id +++ "_" +++ str index

  abbrev delete_objective : Option String → String → Option String
  delete_objective objective title = if title == "" then objective else some ("删除日程：" +++ title)

  unfoldable pub delete_one : WriteTask → Source → ℕ → Event → WriteTask
  delete_one t source index event = record t {
    task = record (t.task) {
      task_id = some (numbered_id (text_or t.task.task_id "calendar_delete") index);
      action = some "delete";
      tool_input = some (write_input "delete" ("event_id" ∷ "event_ids" ∷ []) t source event);
      objective = delete_objective t.task.objective (strip (get_or "title" "" event));
    };
  }

  unfoldable pub delete_each : WriteTask → Source → ℕ → List Event → List WriteTask
  delete_each t source index [] = []
  delete_each t source index (event ∷ events) =
      delete_one t source index event ∷ delete_each t source (index + 1) events

  -- The events of the source that have an id.
  abbrev pub identified : Source → List Event
  identified source = filter (λ event. not (event_id_of event == "")) source.events

  unfoldable pub delete_events : WriteTask → Source → List Event → Resolution
  delete_events t source [] = reported "skipped"
  delete_events t source (event ∷ events) = expanded (delete_each t source 1 (event ∷ events))

  unfoldable pub delete_selected : WriteTask → Source → List Event × Bool → Resolution
  delete_selected t source (events, selected_is_safe) =
      if not (is_empty events) && not selected_is_safe
      then reported "needs_clarification"
      else delete_events t source events

  unfoldable pub resolve_delete : WriteTask → Option Source → Resolution
  resolve_delete t none = queued (t ∷ [])
  resolve_delete t (some source) =
      let selector = selector_of t source in
      let events = identified source in
      if not (is_write_task "delete" t)
      then queued (t ∷ [])
      else if not (is_unresolved_calendar_event_id (lookup "event_id" (tool_input_of t)))
      then queued (t ∷ [])
      else if not (is_no_selector selector)
      then delete_selected t source (select_calendar_events events selector)
      else if leb 2 (length events) && not (calendar_all_selector_requested t)
      then reported "needs_clarification"
      else delete_events t source events

  -- `flatten_calendar_update_fields`: the fields of one of the two dicts that the input lacks.
  unfoldable pub add_fields : List String → Option (Dict String) → Dict String → Dict String
  add_fields names none input = input
  add_fields [] (some values) input = input
  add_fields (name ∷ names) (some values) input = elim (lookup name values) [
    | none ↦ add_fields names (some values) input
    | some v ↦ add_fields names (some values) (put_default name v input)
  ]

  unfoldable pub flatten_calendar_update_fields : WriteTask → WriteTask
  flatten_calendar_update_fields t =
      if lower (strip (get_or "action" "" (tool_input_of t))) == "update"
      then record t {
        task = record (t.task) {
          tool_input = some (
              add_fields update_fields t.fields
                (add_fields update_fields t.pending_update (tool_input_of t)));
        };
        pending_update = none;
        fields = none;
      }
      else record t { task = record (t.task) { tool_input = some (tool_input_of t) } }

  abbrev pub update_dropped : List String
  update_dropped =
      "event_id" ∷ "event_ids" ∷ "selector" ∷ "event_selector" ∷ "target" ∷ "match" ∷ []

  unfoldable pub update_one : WriteTask → Source → ℕ → Event → WriteTask
  update_one t source index event = record t {
    task = record (t.task) {
      task_id = some (numbered_id (text_or t.task.task_id "calendar_update") index);
      action = some "update";
      tool_input = some (write_input "update" update_dropped t source event);
    };
    selectors = [];
  }

  unfoldable pub update_each : WriteTask → Source → ℕ → List Event → List WriteTask
  update_each t source index [] = []
  update_each t source index (event ∷ events) =
      update_one t source index event ∷ update_each t source (index + 1) events

  unfoldable pub update_selected : WriteTask → Source → List Event × Bool → Resolution
  update_selected t source ([], selected_is_safe) = reported "skipped"
  update_selected t source (event ∷ events, selected_is_safe) =
      if not selected_is_safe
      then reported "needs_clarification"
      else expanded (update_each t source 1 (event ∷ events))

  -- A query that found one event with an id is trusted.
  unfoldable pub update_choice : WriteTask → Source → List Event → List Event × Bool
  update_choice t source (event ∷ []) =
      if not (is_unresolved_calendar_event_id (lookup "event_id" event))
      then (event ∷ [], true)
      else select_calendar_events (event ∷ []) (selector_of t source)
  update_choice t source events = select_calendar_events events (selector_of t source)

  unfoldable pub resolve_update : WriteTask → Option Source → Resolution
  resolve_update t found =
      let flat = flatten_calendar_update_fields t in
      if not (is_write_task "update" t)
      then queued (t ∷ [])
      else if not (is_unresolved_calendar_event_id (lookup "event_id" (tool_input_of flat)))
      then queued (flat ∷ [])
      else elim found [
        | none ↦ queued (flat ∷ [])
        | some source ↦ update_selected flat source (update_choice flat source source.events)
      ]
