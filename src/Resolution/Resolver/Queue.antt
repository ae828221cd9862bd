-- ===== src/Resolution/Resolver/Queue.antt =====
-- The loops of `CalendarTaskResolver` in src/mini_rag/capabilities/calendar/resolver.py over the task
-- queue, and the resolution of one task before its call.
use mini_enterprise_rag_agen.Common.{
  ℕ, leb, ◌+◌, String, Bool, true, false, ◌&&◌, not, Option, none, some, List, [], ◌∷◌, ◌++◌, ◌==◌,
  if◌then◌else◌, text_or, any, is_empty, length, lookup,
}
use mini_enterprise_rag_agen.Planning.EventId.{is_unresolved_calendar_event_id}
use mini_enterprise_rag_agen.Resolution.Selector.{WriteTask, tool_input_of}
use mini_enterprise_rag_agen.Resolution.Resolver.Sources.{
  ResolverState, is_write_task, latest_calendar_query_events, append_calendar_resolution_result,
}
use mini_enterprise_rag_agen.Resolution.Resolver.Expansion.{
  Resolution, resolve_delete, flatten_calendar_update_fields, resolve_update, queued, expanded,
  reported,
}

-- The local variables of the loops, with the state.
pub record Pass : Type 0 where
  pub state : ResolverState
  pub new_queue : List WriteTask
  pub changed : Bool

unfoldable pub pass_step : String → Resolution → WriteTask → Pass → Pass
pass_step action (queued tasks) t pass = record pass { new_queue = pass.new_queue ++ tasks }
pass_step action (expanded tasks) t pass = record pass {
  new_queue = pass.new_queue ++ tasks;
  changed = true;
}
pass_step action (reported status) t pass = record pass {
  state = append_calendar_resolution_result pass.state t action status;
  changed = true;
}

unfoldable pub run_pass : String → (WriteTask → Resolution) → List WriteTask → Pass → Pass
run_pass action resolve [] pass = pass
run_pass action resolve (t ∷ tasks) pass =
    run_pass action resolve tasks (pass_step action (resolve t) t pass)

unfoldable pub resolve_queue :
    String → (WriteTask → Resolution) → ResolverState → ResolverState × Bool
resolve_queue action resolve state =
    let pass =
      run_pass action resolve state.task_queue
        (record { state = state; new_queue = []; changed = false }) in
    if pass.changed
    then (record (pass.state) { task_queue = pass.new_queue }, true)
    else (pass.state, false)

module _ (str : ℕ → String) where
  unfoldable pub resolve_updates : ResolverState → ResolverState × Bool
  resolve_updates state =
      resolve_queue "update" (λ t. resolve_update str t (latest_calendar_query_events state)) state

  unfoldable pub resolve_deletes : ResolverState → ResolverState × Bool
  resolve_deletes state =
      resolve_queue "delete" (λ t. resolve_delete str t (latest_calendar_query_events state)) state

  -- The task in the queue, replaced by its resolution.
  unfoldable pub merge_queue : String → List WriteTask → List WriteTask → List WriteTask
  merge_queue task_id resolved_queue [] = []
  merge_queue task_id resolved_queue (candidate ∷ queue) =
      let rest = merge_queue task_id resolved_queue queue in
      if text_or candidate.task.task_id "" == task_id
      then resolved_queue ++ rest
      else candidate ∷ rest

  unfoldable pub merged_queue : String → List WriteTask → List WriteTask → List WriteTask
  merged_queue task_id resolved_queue queue =
      if any (λ (candidate : WriteTask). text_or candidate.task.task_id "" == task_id) queue
      then merge_queue task_id resolved_queue queue
      else queue ++ resolved_queue

  abbrev has_source : ResolverState → Bool
  has_source state = elim (latest_calendar_query_events state) [
    | none ↦ false
    | some source ↦ not (is_empty source.events)
  ]

  abbrev first_or : Option WriteTask → List WriteTask → Option WriteTask
  first_or t [] = t
  first_or t (first ∷ others) = some first

  -- `state` holds the results and `after` the queue of the task alone, resolved.
  unfoldable pub resolution_end :
      String → WriteTask → ResolverState → ResolverState × Bool → ResolverState × Option WriteTask
  resolution_end action t state (after, changed) =
      let is_reported = leb (length state.task_results + 1) (length after.task_results) in
      let done = record after {
        task_queue = merged_queue (text_or t.task.task_id "") after.task_queue state.task_queue;
      } in
      if changed && is_reported
      then (done, none)
      else if changed
      then (done, first_or (some t) after.task_queue)
      else if not (has_source done)
      then (append_calendar_resolution_result done t action "needs_clarification", none)
      else (done, some t)

  unfoldable pub resolve_task_from_context :
      ResolverState → WriteTask → ResolverState × Option WriteTask
  resolve_task_from_context state t =
      let single = record state { task_queue = t ∷ [] } in
      if not (is_write_task "update" t) && not (is_write_task "delete" t)
      then (state, some t)
      else if not (is_unresolved_calendar_event_id (lookup "event_id" (tool_input_of t)))
      then (state, some (flatten_calendar_update_fields str t))
      else if is_write_task "update" t
      then resolution_end "update" t state (resolve_updates single)
      else resolution_end "delete" t state (resolve_deletes single)
