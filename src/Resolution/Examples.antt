-- ===== src/Resolution/Examples.antt =====
-- A deletion of all events that a query found, and an update of the second of them.
use mini_enterprise_rag_agen.Planning.EventId.{is_unresolved_calendar_event_id}
use mini_enterprise_rag_agen.Common.{
  strip_prefix?, strip, lower, lookup, is_digit_of, is_decimal, insert, full_match, filter,
  ends_with, contains, any, all, ℕ, String, ◌≡◌, refl, true, Option, none, some, List, [], ◌∷◌, map,
  leb, mem, All, length,
}
use mini_enterprise_rag_agen.Orchestration.React.{tool_of, kind_of, input_action, empty_task}
use mini_enterprise_rag_agen.Tools.Calendar.{Event}
use mini_enterprise_rag_agen.Resolution.Selector.{
  put_default, with_inferred, task_text, select_calendar_events, says,
  sanitize_unresolved_event_selector, remove, ordinal_of, matches_key, is_in_date_range,
  inferred_ordinal, infer_selector_from_task_text, event_matches_selector, drop_unresolved,
  clean_calendar_selector, choose_candidates, choose_by_ordinal, calendar_update_selector,
  calendar_all_selector_requested, asks_for_all, WriteTask, Selector, all_names,
}
use mini_enterprise_rag_agen.Resolution.Resolver.{
  write_input, update_selected, update_one, update_each, update_choice, selector_of, run_pass,
  resolve_updates, resolve_queue, resolution_end, pass_step, merged_queue, merge_queue,
  latest_result, latest_observed, latest_calendar_query_events, kept_input, is_write_task,
  flatten_calendar_update_fields, enrich_selector_from_source_range, delete_selected, delete_one,
  delete_events, delete_each, append_calendar_resolution_result, add_fields, Source, ResolverState,
  Resolution, queued, expanded, reported, resolve_delete, resolve_update, resolve_deletes,
  resolve_task_from_context,
}
use mini_enterprise_rag_agen.Resolution.Writes.{is_written, written_id}
use mini_enterprise_rag_agen.Resolution.Deletes.{is_meant, is_all_asked, resolve_delete-expanded}
use mini_enterprise_rag_agen.Resolution.Updates.{is_update_meant, resolve_update-expanded}

abbrev meeting : String → String → Event
meeting event_id title = ("event_id", event_id) ∷ ("title", title) ∷ ("date", "2025-01-02") ∷ []

abbrev source : Source
source = record {
  tool_input = ("start_date", "2025-01-01") ∷ ("end_date", "2025-01-31") ∷ [];
  events = meeting "EVT-20250102-0001" "review" ∷ meeting "EVT-20250102-0002" "budget" ∷ [];
}

abbrev write_task : String → String → Option Selector → WriteTask
write_task action objective selector = record {
  task = record empty_task {
    task_id = some "t2";
    kind = some "tool";
    tool = some "manage_company_calendar";
    action = some action;
    objective = some objective;
    tool_input = some (("action", action) ∷ ("event_id", "event_id_from_t1") ∷ []);
  };
  instruction = none;
  select = none;
  ordinal = none;
  position = none;
  selectors = selector ∷ [];
  pending_update = none;
  fields = some (("time", "15:00") ∷ []);
}

abbrev all_deletion : WriteTask
all_deletion = write_task "delete" "删除所有会议" none

abbrev vague_deletion : WriteTask
vague_deletion = write_task "delete" "删除会议" none

abbrev second_update : WriteTask
second_update =
    write_task "update" "改到三点"
      (some (record { fields = ("ordinal", "second") ∷ []; date_range = none }))

abbrev str : ℕ → String
str n = "2"

abbrev resolved_tasks : Resolution → List WriteTask
resolved_tasks (queued tasks) = tasks
resolved_tasks (expanded tasks) = tasks
resolved_tasks (reported status) = []

abbrev state : WriteTask → ResolverState
state t = record {
  task_queue = t ∷ [];
  task_results =
      record {
        task_id = "t1";
        tool_name = some "manage_company_calendar";
        action = some "query";
        status = "success";
        source = source;
      }
      ∷ [];
  completed_tasks = "t1" ∷ [];
  observed = [];
  previous = none;
}

resolver : Unit {0}
unfolding remove put_default clean_calendar_selector calendar_update_selector drop_unresolved
    sanitize_unresolved_event_selector says task_text inferred_ordinal infer_selector_from_task_text
    with_inferred is_in_date_range matches_key event_matches_selector ordinal_of choose_by_ordinal
    choose_candidates select_calendar_events asks_for_all calendar_all_selector_requested
    is_write_task latest_result latest_observed latest_calendar_query_events
    enrich_selector_from_source_range selector_of append_calendar_resolution_result kept_input
    write_input delete_one delete_each delete_events delete_selected resolve_delete add_fields
    flatten_calendar_update_fields update_one update_each update_selected update_choice
    resolve_update pass_step run_pass resolve_queue resolve_updates resolve_deletes merge_queue
    merged_queue resolution_end resolve_task_from_context is_unresolved_calendar_event_id kind_of
    tool_of input_action mem filter any all lookup insert strip lower contains ends_with
    strip_prefix? full_match is_decimal is_digit_of
resolver = tt

both_deleted :
    map written_id (resolve_deletes str (state all_deletion)).0.task_queue
    ≡ "EVT-20250102-0001" ∷ "EVT-20250102-0002" ∷ []
unfolding resolver
both_deleted = refl

vague_stopped : (resolve_task_from_context str (state vague_deletion) vague_deletion).1 ≡ none
unfolding resolver
vague_stopped = refl

second_updated :
    map written_id (resolved_tasks (resolve_update str second_update (some source)))
    ≡ "EVT-20250102-0002" ∷ []
unfolding resolver
second_updated = refl

resolve_delete-expanded_example :
    let tasks = resolved_tasks (resolve_delete str all_deletion (some source)) in
    All (λ t'. is_written (is_meant all_deletion source) source.events t' ≡ true) tasks
    × (leb 2 (length tasks) ≡ true → is_all_asked all_deletion source ≡ true)
unfolding resolver
resolve_delete-expanded_example = resolve_delete-expanded str all_deletion source _ refl

resolve_update-expanded_example :
    let tasks = resolved_tasks (resolve_update str second_update (some source)) in
    let flat = flatten_calendar_update_fields str second_update in
    All (λ t'. is_written (is_update_meant flat source) source.events t' ≡ true) tasks
    × (leb 2 (length tasks) ≡ true → mem (ordinal_of (selector_of flat source)) all_names ≡ true)
unfolding resolver
resolve_update-expanded_example = resolve_update-expanded str second_update source _ refl
