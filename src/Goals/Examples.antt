-- ===== src/Goals/Examples.antt =====
-- Concrete runs of the goal checks: a query has found one event, and its update is missing.
use mini_enterprise_rag_agen.Planning.Tools.{is_registered}
use mini_enterprise_rag_agen.Planning.Gates.{
  validator_gates, selects_calendar_write, mentions, has_calendar_action, evaluate_capability_gates,
  calendar_write_ability_question_requires_confirmation, asked_text,
}
use mini_enterprise_rag_agen.Planning.Tools.{
  requested_action, is_disallowed, first_disallowed_tool_task, allowed_actions,
}
use mini_enterprise_rag_agen.Orchestration.React.Guard.{
  validate_action_scope, join, is_duplicate_read_action, check_call, check_batches,
  check_batch_task, check_batch, action_signature,
}
use mini_enterprise_rag_agen.Orchestration.React.Run.{
  run_from, run, round, choose, checked_act, call_round, act,
}
use mini_enterprise_rag_agen.Common.{
  values, to_set, sorted, keys, filter_map, ℕ, is_decimal, is_digit_of, ends_with, strip_prefix?,
  full_match, ◌≤◌, ◌≡◌, refl, true, false, ◌&&◌, not, none, some, [], ◌∷◌, ◌++◌, arith, strip,
  lower, contains, mem, filter, any, all, lookup, insert, is_some,
}
use mini_enterprise_rag_agen.Security.Permissions.{
  role_actions, policy_of, policy_actions, normalize_role, normalize_action,
  get_allowed_tool_actions, allowed_actions_from_role_policy, actions_of,
}
use mini_enterprise_rag_agen.Orchestration.React.{
  wanted_id, validated_executable_ids, task_by_action, rag_batch, find_task, fallback_action,
  direct_rag_batch, direct_action, coerce_action, can_direct_execute, remaining_tasks, tasks_of,
  clamp_steps, merge_execution_status, is_executable, dependencies_of, query_of, input_action,
  kind_of, task_id_of, Task, tool_of, AgentState,
}
use mini_enterprise_rag_agen.Orchestration.React.Rounds.{
  round_end, observe, no_task_round, finish_round, duplicate_round, completed_ids_of, complete_task,
  clarify_round, batch_items, batch_item, after_single, after_call, after_batch,
}
use mini_enterprise_rag_agen.Orchestration.React.Bounds.{IsCounter}
use mini_enterprise_rag_agen.Planning.Attendance.{
  validate_each, validate_attendance_tasks, is_broad, is_attendance_task, has_status_filter,
  attendance_scope_issue,
}
use mini_enterprise_rag_agen.Planning.Calendar.{
  write_issues, validate_date_fields, validate_calendar_tasks, time_type_of, task_issues,
  normalize_time_requirement, missing_fields, is_write_selected, is_target_write, is_query_source,
  is_date_text, is_calendar_tool, has_query_source, has_open_target, has_forbidden_write,
  has_executable_calendar_query_source, depends_on_calendar_query, date_is_resolvable,
  create_issues, checked_range, calendar_write_needs_clarification, calendar_action, all_issues,
}
use mini_enterprise_rag_agen.Planning.EventId.{is_unresolved_calendar_event_id}
use mini_enterprise_rag_agen.Goals.Check.{
  clean_expected_result, calendar_results, write_success, calendar_delete_success, matches_expected,
  latest_calendar_query, build_safe_calendar_update_task, build_safe_calendar_delete_task,
  single_previous_calendar_event_id, after_query, check_open_update, check_calendar_update,
  check_goal_completion,
}
use mini_enterprise_rag_agen.Goals.Calendar.{is_completed, check_goal_completion-calendar}
use mini_enterprise_rag_agen.Goals.Reaches.{reaches}
use mini_enterprise_rag_agen.Goals.Append.{
  appended, safe_candidate, free_id, next_free, raw_id, taken_ids, append_safe_react_task,
  append_safe_react_task-fresh,
}
use mini_enterprise_rag_agen.Goals.Loop.{
  unresolved_date, completion_user_message, merged_steps, GoalKeys, capability_issue,
  validate_safe_react_task,
}
use mini_enterprise_rag_agen.Goals.Loop.Rounds.{
  safe_round, incomplete_round, goal_rounds, goal_round, follow_up, blocked_end, recorded,
  check_entry, check_of, Outcome, finished, raised, apply_goal_aware_completion,
}
use mini_enterprise_rag_agen.Goals.Loop.Success.{apply_goal_aware_completion-success}
use mini_enterprise_rag_agen.Goals.Loop.Safe.{
  is_safe_write, action_of, input_or_empty, validate_safe_react_task-safe,
}
use mini_enterprise_rag_agen.Goals.Loop.Bounds.{
  on_rest, outcome_rest, apply_goal_aware_completion-calls_bound,
}
use mini_enterprise_rag_agen.Goals.Samples.{
  queried, renewed, goal, state, nodes, updates, before, strokes, strokes_injective,
}

abbrev final_of : Outcome ℕ → AgentState (GoalKeys ℕ)
final_of (finished s r) = s
final_of (raised s m) = s

goal_checks : Unit {0}
unfolding is_unresolved_calendar_event_id clean_expected_result calendar_results write_success
    calendar_delete_success matches_expected latest_calendar_query build_safe_calendar_update_task
    build_safe_calendar_delete_task single_previous_calendar_event_id after_query check_open_update
    check_calendar_update check_goal_completion mem filter any all lookup insert strip lower
    contains ends_with strip_prefix? full_match is_decimal is_digit_of
goal_checks = tt

executor : Unit {0}
unfolding task_id_of kind_of tool_of input_action query_of dependencies_of is_executable
    merge_execution_status clamp_steps tasks_of remaining_tasks validated_executable_ids
    can_direct_execute fallback_action rag_batch direct_rag_batch direct_action coerce_action
    wanted_id find_task task_by_action join check_batch_task check_batch check_batches check_call
    validate_action_scope action_signature is_duplicate_read_action observe complete_task
    completed_ids_of batch_item batch_items round_end after_batch after_single after_call
    finish_round clarify_round no_task_round duplicate_round choose call_round act checked_act round
    run_from run
executor = tt

gates : Unit {0}
unfolding is_registered allowed_actions requested_action is_disallowed first_disallowed_tool_task
    has_status_filter is_broad attendance_scope_issue is_attendance_task validate_each
    validate_attendance_tasks normalize_role normalize_action get_allowed_tool_actions role_actions
    actions_of policy_of policy_actions allowed_actions_from_role_policy asked_text mentions
    has_calendar_action selects_calendar_write calendar_write_ability_question_requires_confirmation
    validator_gates evaluate_capability_gates is_date_text checked_range time_type_of
    normalize_time_requirement date_is_resolvable is_calendar_tool calendar_action has_query_source
    depends_on_calendar_query validate_date_fields missing_fields create_issues write_issues
    task_issues all_issues validate_calendar_tasks is_query_source
    has_executable_calendar_query_source is_target_write is_write_selected has_forbidden_write
    has_open_target calendar_write_needs_clarification keys values sorted to_set filter_map
gates = tt

goal_loop : Unit {0}
unfolding raw_id taken_ids next_free free_id safe_candidate appended append_safe_react_task strokes
    merged_steps completion_user_message unresolved_date capability_issue validate_safe_react_task
    check_of check_entry recorded blocked_end follow_up safe_round incomplete_round goal_round
    goal_rounds apply_goal_aware_completion
goal_loop = tt

update_missing :
    (check_goal_completion (queried ∷ []) none goal).reason ≡ "query_completed_but_update_missing"
unfolding goal_checks
update_missing = refl

update_done : (check_goal_completion (queried ∷ renewed ∷ []) none goal).status ≡ "completed"
unfolding goal_checks
update_done = refl

check_goal_completion-calendar_example :
    is_completed (check_goal_completion (queried ∷ renewed ∷ []) none goal)
    ≡ any (reaches "calendar_update" goal) (queried ∷ renewed ∷ [])
unfolding goal_checks
check_goal_completion-calendar_example =
    check_goal_completion-calendar (queried ∷ renewed ∷ []) none goal refl

abbrev update_task : Task
update_task = build_safe_calendar_update_task "EVT-20250102-0003" (("time", "15:00") ∷ [])

append_safe_react_task-fresh_example :
    let (after, candidate) = append_safe_react_task strokes state update_task 1 in
    (mem (raw_id candidate) (taken_ids state) ≡ false)
    × (after.task_queue ≡ state.task_queue ++ candidate ∷ [])
    × (after.plan_tasks ≡ state.plan_tasks ++ candidate ∷ [])
    × (after.executable_tasks ≡ state.executable_tasks ++ candidate ∷ [])
append_safe_react_task-fresh_example =
    append_safe_react_task-fresh strokes strokes_injective state update_task 1

validate_safe_react_task-safe_example :
    not (is_some (validate_safe_react_task nodes state update_task)) ≡ (
      is_safe_write nodes state update_task
      && not (
          is_some (
            capability_issue nodes state
              (tool_of update_task)
              (action_of nodes update_task)
              (some (input_or_empty nodes update_task)))))
validate_safe_react_task-safe_example = validate_safe_react_task-safe nodes state update_task

counts : IsCounter (on_rest (λ (n : ℕ). n)) updates
counts = record {
  proposing = λ s n open_tasks. omega arith;
  calling = λ s task action. omega arith;
  searching = λ s task action. omega arith;
}

apply_goal_aware_completion-calls_bound_example :
    outcome_rest (apply_goal_aware_completion nodes updates 5 state before) ≤ 15
apply_goal_aware_completion-calls_bound_example =
    apply_goal_aware_completion-calls_bound (λ n. n) nodes updates 5 state before counts

apply_goal_aware_completion-success_example :
    any
      (reaches "calendar_update" goal)
      ((final_of (apply_goal_aware_completion nodes updates 5 state before)).rest.task_results)
    ≡ true
unfolding goal_checks executor gates goal_loop
apply_goal_aware_completion-success_example =
    apply_goal_aware_completion-success nodes updates 5 state _ before _ goal refl refl refl refl
