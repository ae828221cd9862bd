-- ===== src/Orchestration/React/Rounds.antt =====
-- The pieces of a round of `ReActExecutor.run` in src/mini_rag/orchestration/react_executor.py. The
-- callbacks take the agent's state and return it, since they may change it.
use mini_enterprise_rag_agen.Common.{
  ℕ, ◌+◌, String, ◌&&◌, not, Option, none, some, List, [], ◌∷◌, ◌++◌, map, ◌==◌, if◌then◌else◌,
  strip, text_or, mem, filter, is_empty, length, Dict, ◌+++◌,
}
use mini_enterprise_rag_agen.Orchestration.React.{
  Task, Action, Step, ExecutionResult, AgentState, task_id_of, is_executable,
  merge_execution_status, tasks_of, remaining_tasks,
}
use mini_enterprise_rag_agen.Orchestration.React.Guard.{is_duplicate_read_action}

pub record BatchItem : Type 0 where
  pub status : Option String
  pub task_id : Option String
  pub summary : Option String

-- What a callback returns to the executor; `batch_results` is [] where the key is missing.
pub record Observation : Type 0 where
  pub status : Option String
  pub summary : Option String
  pub batch_results : List BatchItem

-- The local variables of `run`, with the state.
pub record Loop (X : Type 0) : Type 0 where
  pub state : AgentState X
  pub steps : List Step
  pub seen_signatures : List String
  pub overall_status : String

-- How a round ends.
pub data Verdict (X : Type 0) : Type 0 where
  next : Loop X → Verdict X
  returned : AgentState X → ExecutionResult → Verdict X
  violated : AgentState X → String → Verdict X

pub record Callbacks (X : Type 0) : Type 0 where
  pub next_action : AgentState X → ℕ → List Task → AgentState X × Option Action
  pub call_tool : AgentState X → Task → Action → AgentState X × Observation
  pub search_rag : AgentState X → Task → Action → AgentState X × Observation
  pub dumps : Dict String → String

-- The variables of the loop over `batch_results`.
pub record BatchLoop (X : Type 0) : Type 0 where
  pub loop : Loop X
  pub terminal_status : String
  pub terminal_summary : String

abbrev pub completing : List String
completing = "success" ∷ "ok" ∷ "empty" ∷ "no_evidence" ∷ []

abbrev pub stopping : List String
stopping = "blocked" ∷ "need_clarification" ∷ "failed" ∷ "error" ∷ []

module _ {X : Type 0} where
  unfoldable pub observe : AgentState X → Step → AgentState X
  observe state step = record state { observations = state.observations ++ step ∷ [] }

  unfoldable pub complete_task : AgentState X → String → AgentState X
  complete_task state task_id =
      if not (task_id == "") && not (mem task_id state.completed_tasks)
      then record state { completed_tasks = state.completed_tasks ++ task_id ∷ [] }
      else state

  -- `completed_ids` of a round.
  unfoldable pub completed_ids_of : AgentState X → List Task → List Task → List String
  completed_ids_of state tasks remaining =
      state.completed_tasks
      ++ filter (λ i. not (mem i (map task_id_of remaining))) (map task_id_of tasks)

  unfoldable pub batch_item : String → BatchItem → BatchLoop X → BatchLoop X
  unfolding observe complete_task
  batch_item name item b =
      let item_status = text_or item.status "success" in
      let item_task_id = strip (text_or item.task_id "") in
      let marked =
        if mem item_status completing
        then complete_task b.loop.state item_task_id
        else b.loop.state in
      let step : Step = record {
        step = length b.loop.steps + 1;
        task_id = some item_task_id;
        action = name;
        status = item_status;
        summary = text_or item.summary "";
      } in
      let merged_terminal = merge_execution_status b.terminal_status item_status in
      record {
        loop = record (b.loop) {
          state = observe marked step;
          steps = b.loop.steps ++ step ∷ [];
          overall_status = merge_execution_status b.loop.overall_status item_status;
        };
        terminal_status = merged_terminal;
        terminal_summary =
            if merged_terminal == b.terminal_status
            then b.terminal_summary
            else text_or item.summary "";
      }

  unfoldable pub batch_items : String → List BatchItem → BatchLoop X → BatchLoop X
  batch_items name [] b = b
  batch_items name (item ∷ items) b = batch_items name items (batch_item name item b)

  abbrev pub result_of : Loop X → String → String → Verdict X
  result_of l status reason =
      returned l.state (record { status = status; steps = l.steps; finish_reason = reason })

  -- The end of a round: return if nothing executable is left.
  unfoldable pub round_end : Loop X → Verdict X
  round_end l =
      if is_empty (filter is_executable (remaining_tasks l.state (tasks_of l.state)))
      then result_of l l.overall_status "all tasks completed"
      else next l

  unfoldable pub after_batch : BatchLoop X → Verdict X
  after_batch b =
      if not (b.terminal_status == "success") && not (b.terminal_status == "partial")
      then result_of b.loop b.terminal_status b.terminal_summary
      else round_end b.loop

  unfoldable pub after_single : ℕ → String → Task → Observation → Loop X → Verdict X
  unfolding observe complete_task
  after_single step_number name task raw l =
      let status = text_or raw.status "success" in
      let task_id = task_id_of task in
      let marked = if mem status completing then complete_task l.state task_id else l.state in
      let step : Step = record {
        step = step_number;
        task_id = some task_id;
        action = name;
        status = status;
        summary = text_or raw.summary "";
      } in
      let l' = record l {
        state = observe marked step;
        steps = l.steps ++ step ∷ [];
        overall_status = merge_execution_status l.overall_status status;
      } in
      if mem status stopping then result_of l' status step.summary else round_end l'

  unfoldable pub after_call : ℕ → String → Task → AgentState X × Observation → Loop X → Verdict X
  after_call step_number name task (state, raw) l =
      if is_empty raw.batch_results
      then after_single step_number name task raw (record l { state = state })
      else after_batch (
          batch_items name raw.batch_results (record {
            loop = record l { state = state };
            terminal_status = "success";
            terminal_summary = "all batched rag tasks completed";
          }))

  unfoldable pub finish_round : ℕ → Action → Loop X → Verdict X
  unfolding observe
  finish_round step_number action l =
      let step : Step = record {
        step = step_number;
        task_id = action.task_id;
        action = "finish";
        status = "success";
        summary = text_or action.finish_reason "finish";
      } in
      result_of (record l { state = observe l.state step; steps = l.steps ++ step ∷ [] }) "success"
        step.summary

  unfoldable pub clarify_round : ℕ → Action → Loop X → Verdict X
  unfolding observe
  clarify_round step_number action l =
      let step : Step = record {
        step = step_number;
        task_id = action.task_id;
        action = "ask_clarification";
        status = "need_clarification";
        summary = text_or action.finish_reason (text_or action.clarification "需要补充信息。");
      } in
      result_of
        (record l {
          state = record (observe l.state step) {
            final_answer = some step.summary;
            intent = some "need_clarification";
            route = some "direct";
          };
          steps = l.steps ++ step ∷ [];
        })
        "need_clarification" step.summary

  unfoldable pub no_task_round : ℕ → Loop X → Verdict X
  unfolding observe
  no_task_round step_number l =
      let step : Step = record {
        step = step_number;
        task_id = none;
        action = "finish";
        status = "success";
        summary = "all tasks completed";
      } in
      result_of (record l { state = observe l.state step; steps = l.steps ++ step ∷ [] })
        l.overall_status "all tasks completed"

  -- The branch of a repeated signature: a repeated calendar query is skipped.
  unfoldable pub duplicate_round : ℕ → String → String → Action → Task → Loop X → Verdict X
  unfolding observe complete_task
  duplicate_round step_number name signature action task l =
      let task_id = task_id_of task in
      let step : Step = record {
        step = step_number;
        task_id = some task_id;
        action = name;
        status = "success";
        summary = "duplicate query reused previous observation";
      } in
      if is_duplicate_read_action action task
      then next (record l {
        state = observe (complete_task l.state task_id) step;
        steps = l.steps ++ step ∷ [];
      })
      else violated l.state ("duplicate action blocked: " +++ signature)
