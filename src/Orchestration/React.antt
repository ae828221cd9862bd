-- ===== src/Orchestration/React.antt =====
-- src/mini_rag/orchestration/react_executor.py: the data of the bounded executor and the choice of
-- the next action. A task or action is a record whose optional fields are the dict's keys.
pub mod Guard
pub mod Rounds
pub mod Run
pub mod Choice
pub mod Scope
pub mod Effects
pub mod Bounds
pub mod Repeats
pub mod Completion
use mini_enterprise_rag_agen.Common.{
  ℕ, String, Bool, true, false, ◌&&◌, ◌||◌, not, Option, none, some, List, [], ◌∷◌, ◌++◌, map, ◌==◌,
  leb, eqb, if◌then◌else◌, strip, lower, text_or, mem, filter, is_empty, length, any, all, Dict,
  lookup, is_some,
}

-- An element of `task_queue` or of a plan's `tasks`; the values of `tool_input` are texts.
pub record Task : Type 0 where
  pub task_id : Option String
  pub id : Option String
  pub kind : Option String
  pub tool : Option String
  pub tool_name : Option String
  pub action : Option String
  pub tool_input : Option (Dict String)
  pub depends_on : List String
  pub rag_query : Option String
  pub query : Option String
  pub objective : Option String

abbrev pub empty_task : Task
empty_task = record {
  task_id = none;
  id = none;
  kind = none;
  tool = none;
  tool_name = none;
  action = none;
  tool_input = none;
  depends_on = [];
  rag_query = none;
  query = none;
  objective = none;
}

-- What the planner or the executor proposes; `batch_tasks` is the key `_batch_tasks`.
pub record Action : Type 0 where
  pub next_action : Option String
  pub action : Option String
  pub task_id : Option String
  pub tool_name : Option String
  pub tool_input : Option (Dict String)
  pub rag_query : Option String
  pub finish_reason : Option String
  pub clarification : Option String
  pub batch_tasks : List Task

abbrev pub no_action : Action
no_action = record {
  next_action = none;
  action = none;
  task_id = none;
  tool_name = none;
  tool_input = none;
  rag_query = none;
  finish_reason = none;
  clarification = none;
  batch_tasks = [];
}

-- One entry of `steps` and of the observations; timings, facts and raw results are left out.
pub record Step : Type 0 where
  pub step : ℕ
  pub task_id : Option String
  pub action : String
  pub status : String
  pub summary : String

pub record ExecutionResult : Type 0 where
  pub status : String
  pub steps : List Step
  pub finish_reason : String

-- The keys of the agent's state that the executor reads or writes; `rest` is the rest of it.
pub record AgentState (X : Type 0) : Type 0 where
  pub task_queue : List Task
  pub plan_tasks : List Task
  pub completed_tasks : List String
  pub validation_status : Option String
  pub executable_tasks : List Task
  pub observations : List Step
  pub final_answer : Option String
  pub intent : Option String
  pub route : Option String
  pub rest : X

-- `a or b` on optional texts.
abbrev pub option_or : Option String → Option String → Option String
option_or none b = b
option_or (some x) b = if x == "" then b else some x

-- `a or b or ""`.
abbrev pub either : Option String → Option String → String
either a b = text_or a (text_or b "")

unfoldable pub task_id_of : Task → String
task_id_of task = strip (either task.task_id task.id)

-- `str(task.get("kind") or "").lower()`.
unfoldable pub kind_of : Task → String
kind_of task = lower (text_or task.kind "")

unfoldable pub tool_of : Task → String
tool_of task = strip (either task.tool task.tool_name)

-- `(task.get("tool_input") or {}).get("action")`.
unfoldable pub input_action : Option (Dict String) → Option String
input_action none = none
input_action (some d) = lookup "action" d

unfoldable pub query_of : Task → String
query_of task = text_or task.rag_query (either task.query task.objective)

-- `[str(dep).strip() for dep in deps if str(dep).strip()]`.
unfoldable pub dependencies_of : Task → List String
dependencies_of task = filter (λ d. not (d == "")) (map strip task.depends_on)

unfoldable pub is_executable : Task → Bool
is_executable task = kind_of task == "tool" || kind_of task == "rag"

unfoldable pub merge_execution_status : String → String → String
merge_execution_status current observed =
    let normalized = lower observed in
    if mem normalized ("blocked" ∷ "need_clarification" ∷ "failed" ∷ "error" ∷ [])
    then normalized
    else if mem normalized ("empty" ∷ "no_evidence" ∷ "insufficient_evidence" ∷ [])
        && current == "success"
    then "partial"
    else current

-- `min(max(1, int(max_steps or 5)), 5)`.
unfoldable pub clamp_steps : ℕ → ℕ
clamp_steps max_steps =
    let asked = if eqb max_steps 0 then 5 else max_steps in if leb asked 5 then asked else 5

module _ {X : Type 0} where
  unfoldable pub tasks_of : AgentState X → List Task
  tasks_of state = if is_empty state.task_queue then state.plan_tasks else state.task_queue

  unfoldable pub remaining_tasks : AgentState X → List Task → List Task
  remaining_tasks state tasks =
      filter (λ task. not (mem (task_id_of task) state.completed_tasks)) tasks

  unfoldable pub validated_executable_ids : AgentState X → List String
  validated_executable_ids state =
      if mem (lower (text_or state.validation_status "")) ("valid" ∷ "partial" ∷ [])
      then filter (λ i. not (i == "")) (map task_id_of state.executable_tasks)
      else []

  unfoldable pub can_direct_execute : AgentState X → Task → List String → Bool
  can_direct_execute state task completed_ids =
      let task_id = task_id_of task in
      let dependencies = dependencies_of task in
      let action = strip (either task.action (input_action task.tool_input)) in
      if task_id == "" || not (mem task_id (validated_executable_ids state))
      then false
      else if any (λ dep. not (mem dep completed_ids)) dependencies
      then false
      else if kind_of task == "tool"
      then not (tool_of task == "") && not (action == "") && not (mem task_id completed_ids)
      else if kind_of task == "rag"
      then is_empty dependencies
        && not (strip (query_of task) == "")
        && not (mem task_id completed_ids)
      else false

unfoldable pub fallback_action : List Task → Action
fallback_action [] = record no_action {
  next_action = some "finish";
  finish_reason = some "all tasks completed";
}
fallback_action (task ∷ others) =
    if kind_of task == "tool"
    then record no_action {
      next_action = some "call_tool";
      task_id = some (task_id_of task);
      tool_name = option_or task.tool task.tool_name;
      tool_input = elim task.tool_input [ none ↦ some [] | some d ↦ some d ];
    }
    else if kind_of task == "rag"
    then record no_action {
      next_action = some "search_rag";
      task_id = some (task_id_of task);
      rag_query = some (query_of task);
    }
    else record no_action {
      next_action = some "finish";
      task_id = some (task_id_of task);
      finish_reason = some "answer task uses resolved facts";
    }

abbrev batch_action : List Task → Option Action
batch_action [] = none
batch_action (first ∷ []) = none
batch_action (first ∷ (second ∷ others)) = some (record no_action {
  next_action = some "search_rag";
  task_id = some (task_id_of first);
  rag_query = some (query_of first);
  batch_tasks = first ∷ (second ∷ others);
})

module _ {X : Type 0} where
  unfoldable pub rag_batch : AgentState X → List Task → List String → List Task
  rag_batch state remaining completed_ids =
      filter (λ task. kind_of task == "rag" && can_direct_execute state task completed_ids)
        remaining

  unfoldable pub direct_rag_batch : AgentState X → List Task → List String → Option Action
  direct_rag_batch state [] completed_ids = none
  direct_rag_batch state (task ∷ others) completed_ids =
      if kind_of task == "rag"
      then batch_action (rag_batch state (task ∷ others) completed_ids)
      else none

  abbrev single_action : AgentState X → Task → List String → Option Action
  single_action state task completed_ids =
      if can_direct_execute state task completed_ids
      then some (fallback_action (task ∷ []))
      else none

  unfoldable pub direct_action : AgentState X → List Task → List String → Option Action
  direct_action state [] completed_ids = none
  direct_action state (task ∷ others) completed_ids =
      elim (direct_rag_batch state (task ∷ others) completed_ids) [
        | none ↦ single_action state task completed_ids
        | some batch ↦ some batch
      ]

-- `none` where the proposal is not a dict.
abbrev pub action_names : List String
action_names = "call_tool" ∷ "search_rag" ∷ "finish" ∷ "ask_clarification" ∷ []

abbrev pub calls_out : String → Bool
calls_out name = name == "call_tool" || name == "search_rag"

abbrev first_id : List Task → Option String → Option String
first_id [] given = given
first_id (task ∷ others) given = if text_or given "" == "" then some (task_id_of task) else given

unfoldable pub coerce_action : Option Action → List Task → Action
coerce_action none remaining = fallback_action remaining
coerce_action (some a) remaining =
    let name = strip (either a.next_action a.action) in
    if mem name action_names
    then record a {
      next_action = some name;
      task_id = if calls_out name then first_id remaining a.task_id else a.task_id;
    }
    else fallback_action remaining

unfoldable pub wanted_id : Action → String
wanted_id a = strip (text_or a.task_id "")

unfoldable pub find_task : String → List Task → Option Task
find_task wanted [] = none
find_task wanted (task ∷ others) =
    let rest = find_task wanted others in if task_id_of task == wanted then some task else rest

abbrev first_task : List Task → Task
first_task [] = empty_task
first_task (task ∷ others) = task

unfoldable pub task_by_action : List Task → Action → Task
task_by_action tasks a = elim (find_task (wanted_id a) tasks) [
  | none ↦ first_task tasks
  | some task ↦ task
]
