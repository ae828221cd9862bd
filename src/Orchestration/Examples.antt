-- ===== src/Orchestration/Examples.antt =====
-- Tests of the model of src/mini_rag/orchestration/react_executor.py, and its theorems on a plan
-- with a calendar query and a search that depends on it.
use mini_enterprise_rag_agen.Common.{
  ◌==◌, ◌||◌, ◌+◌, ◌≤◌, String, ◌≡◌, refl, true, none, some, List, [], ◌∷◌, length, arith, Dict,
  filter, mem, any, all, lookup, strip, lower, ◌+++◌, is_empty,
}
use mini_enterprise_rag_agen.Orchestration.React.{
  Task, AgentState, ExecutionResult, empty_task, no_action, task_id_of, kind_of, tool_of,
  input_action, query_of, dependencies_of, is_executable, merge_execution_status, clamp_steps,
  tasks_of, remaining_tasks, validated_executable_ids, can_direct_execute, fallback_action,
  rag_batch, direct_rag_batch, direct_action, coerce_action, wanted_id, find_task, task_by_action,
}
use mini_enterprise_rag_agen.Orchestration.React.Guard.{
  raw_kind, join, check_batch_task, check_batch, check_batches, check_call, validate_action_scope,
  action_signature, is_duplicate_read_action,
}
use mini_enterprise_rag_agen.Orchestration.React.Rounds.{
  Observation, returned, violated, Callbacks, observe, complete_task, completed_ids_of, batch_item,
  batch_items, round_end, after_batch, after_single, after_call, finish_round, clarify_round,
  no_task_round, duplicate_round,
}
use mini_enterprise_rag_agen.Orchestration.React.Run.{
  choose, call_round, act, checked_act, round, run_from, run,
}
use mini_enterprise_rag_agen.Orchestration.React.Effects.{rest_of}
use mini_enterprise_rag_agen.Orchestration.React.Bounds.{IsCounter, run-calls_bound}
use mini_enterprise_rag_agen.Orchestration.React.Repeats.{NoRepeat, LogsCalls, run-NoRepeat}
use mini_enterprise_rag_agen.Orchestration.React.Completion.{
  KeepsPlan, open_executable, run-success,
}

-- What runs the executor.
executor : Unit {0}
unfolding task_id_of kind_of tool_of input_action query_of dependencies_of is_executable
    merge_execution_status clamp_steps tasks_of remaining_tasks validated_executable_ids
    can_direct_execute fallback_action rag_batch direct_rag_batch direct_action coerce_action
    wanted_id find_task task_by_action join check_batch_task check_batch check_batches check_call
    validate_action_scope action_signature is_duplicate_read_action observe complete_task
    completed_ids_of batch_item batch_items round_end after_batch after_single after_call
    finish_round clarify_round no_task_round duplicate_round choose call_round act checked_act round
    run_from run filter mem any lookup strip lower
executor = tt

abbrev query_task : Task
query_task = record empty_task {
  task_id = some "t1";
  kind = some "tool";
  tool = some "manage_company_calendar";
  action = some "query";
  tool_input = some (("action", "query") ∷ []);
}

abbrev rag_task : Task
rag_task = record empty_task {
  task_id = some "t2";
  kind = some "rag";
  query = some "leave policy";
  depends_on = "t1" ∷ [];
}

abbrev start : AgentState (List String)
start = record {
  task_queue = [];
  plan_tasks = query_task ∷ rag_task ∷ [];
  completed_tasks = [];
  validation_status = some "valid";
  executable_tasks = query_task ∷ [];
  observations = [];
  final_answer = none;
  intent = none;
  route = none;
  rest = [];
}

abbrev ok_observation : Observation
ok_observation = record { status = some "ok"; summary = some "done"; batch_results = [] }

abbrev dump : Dict String → String
dump [] = ""
dump ((k, v) ∷ d) = k +++ v +++ dump d

-- The planner proposes the search; every call is logged by its signature and succeeds.
abbrev logging : Callbacks (List String)
logging = record {
  next_action = λ s n open_tasks. (
    s,
    some (record no_action { next_action = some "search_rag"; rag_query = some "leave policy" }),
  );
  call_tool = λ s task action.
      (record s { rest = action_signature dump action task ∷ s.rest }, ok_observation);
  search_rag = λ s task action.
      (record s { rest = action_signature dump action task ∷ s.rest }, ok_observation);
  dumps = dump;
}

abbrev two_calls : List String
two_calls = "search_rag:leave policy" ∷ "call_tool:manage_company_calendar:actionquery" ∷ []

run_test : rest_of (run logging 5 start) ≡ two_calls
unfolding executor
run_test = refl

abbrev ended : AgentState (List String)
ended = record start {
  completed_tasks = "t1" ∷ "t2" ∷ [];
  observations =
      record {
        step = 1;
        task_id = some "t1";
        action = "call_tool";
        status = "ok";
        summary = "done";
      }
      ∷ record {
        step = 2;
        task_id = some "t2";
        action = "search_rag";
        status = "ok";
        summary = "done";
      }
      ∷ [];
  rest = two_calls;
}

abbrev ended_result : ExecutionResult
ended_result = record {
  status = "success";
  steps = ended.observations;
  finish_reason = "all tasks completed";
}

run_ends : run logging 5 start ≡ returned ended ended_result
unfolding executor
run_ends = refl

-- With a planner that proposes to finish, the open search blocks it.
abbrev lazy_planner : Callbacks (List String)
lazy_planner = record logging {
  next_action = λ s n open_tasks. (s, some (record no_action { next_action = some "finish" }));
}

finish_is_blocked :
    run lazy_planner 5 (record start { completed_tasks = "t1" ∷ [] })
    ≡ violated
        (record start { completed_tasks = "t1" ∷ [] })
        "finish blocked: remaining executable tasks exist"
unfolding executor
finish_is_blocked = refl

logs : LogsCalls logging
logs = record {
  proposing = λ s n open_tasks. refl;
  calling = λ s task action. refl;
  searching = λ s task action. refl;
}

run-NoRepeat_example : NoRepeat (rest_of (run logging 5 start))
run-NoRepeat_example = run-NoRepeat logging 5 start logs refl

counts : IsCounter (λ (log : List String). length log) logging
counts = record {
  proposing = λ s n open_tasks. omega arith;
  calling = λ s task action. omega arith;
  searching = λ s task action. omega arith;
}

run-calls_bound_example : length (rest_of (run logging 9 start)) ≤ length start.rest + 5
run-calls_bound_example = run-calls_bound (λ (log : List String). length log) logging 9 start counts

plan_kept : KeepsPlan logging
plan_kept = record {
  queue = λ s n open_tasks. refl;
  plan = λ s n open_tasks. refl;
  completed = λ s n open_tasks. refl;
}

run-success_example : is_empty (open_executable ended) ≡ true
run-success_example = run-success logging 5 start ended ended_result plan_kept run_ends refl

-- The outside world records the kind of the task of each call that is made.
abbrev kinds : Callbacks (List String)
kinds = record logging {
  call_tool = λ s task action. (record s { rest = raw_kind task ∷ s.rest }, ok_observation);
  search_rag = λ s task action. (record s { rest = raw_kind task ∷ s.rest }, ok_observation);
}

abbrev OnlyKinds : List String → Type 0
OnlyKinds log = all (λ k. k == "tool" || k == "rag") log ≡ true
