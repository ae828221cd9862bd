-- ===== src/Orchestration/React/Run.antt =====
-- `ReActExecutor.run` of src/mini_rag/orchestration/react_executor.py: one round, and the loop.
use mini_enterprise_rag_agen.Common.{
  ℕ, zero, suc, ◌+◌, String, none, some, List, [], ◌∷◌, ◌==◌, if◌then◌else◌, text_or, mem, is_empty,
}
use mini_enterprise_rag_agen.Orchestration.React.{
  Task, Action, AgentState, clamp_steps, tasks_of, remaining_tasks, direct_action, coerce_action,
  task_by_action,
}
use mini_enterprise_rag_agen.Orchestration.React.Guard.{validate_action_scope, action_signature}
use mini_enterprise_rag_agen.Orchestration.React.Rounds.{
  Loop, Verdict, next, returned, violated, Callbacks, completed_ids_of, result_of, after_call,
  finish_round, clarify_round, no_task_round, duplicate_round,
}

module _ {X : Type 0} (env : Callbacks X) where
  -- The action of a round: from the validated plan if possible, else proposed by the callback.
  unfoldable pub choose : AgentState X → ℕ → List Task → List String → AgentState X × Action
  choose state step_number remaining completed_ids =
      elim (direct_action state remaining completed_ids) [
        | some action ↦ (state, coerce_action (some action) remaining)
        | none ↦ (
          (env.next_action state step_number remaining).0,
          coerce_action (env.next_action state step_number remaining).1 remaining,
        )
      ]

  unfoldable pub call_round : ℕ → String → Action → Task → Loop X → Verdict X
  call_round step_number name action task l =
      let signature = action_signature env.dumps action task in
      if mem signature l.seen_signatures
      then duplicate_round step_number name signature action task l
      else after_call step_number name task
          (if name == "call_tool"
            then env.call_tool l.state task action
            else env.search_rag l.state task action)
          (record l { seen_signatures = signature ∷ l.seen_signatures })

  -- What follows the scope check.
  unfoldable pub act : ℕ → List Task → Action → Loop X → Verdict X
  act step_number tasks action l =
      let name = text_or action.next_action "" in
      if name == "finish"
      then finish_round step_number action l
      else if name == "ask_clarification"
      then clarify_round step_number action l
      else call_round step_number name action (task_by_action tasks action) l

  unfoldable pub checked_act :
      ℕ → List Task → List Task → List String → AgentState X × Action → Loop X → Verdict X
  checked_act step_number tasks remaining completed_ids (state, action) l =
      elim (validate_action_scope action remaining tasks completed_ids) [
        | some message ↦ violated state message
        | none ↦ act step_number tasks action (record l { state = state })
      ]

  unfoldable pub round : ℕ → Loop X → Verdict X
  round step_number l =
      let tasks = tasks_of l.state in
      let remaining = remaining_tasks l.state tasks in
      let completed_ids = completed_ids_of l.state tasks remaining in
      if is_empty remaining
      then no_task_round step_number l
      else checked_act step_number tasks remaining completed_ids
          (choose l.state step_number remaining completed_ids) l

  -- `rounds` are left, and the next one has the number `step_number`.
  unfoldable pub run_from : ℕ → ℕ → Loop X → Verdict X
  run_from zero step_number l = result_of l "partial" "max steps reached"
  run_from (suc rounds) step_number l = elim (round step_number l) [
    | next l' ↦ run_from rounds (step_number + 1) l'
    | returned state result ↦ returned state result
    | violated state message ↦ violated state message
  ]

  -- `ReActExecutor(max_steps).run(state)`.
  unfoldable pub run : ℕ → AgentState X → Verdict X
  run max_steps state =
      run_from (clamp_steps max_steps) 1
        (record { state = state; steps = []; seen_signatures = []; overall_status = "success" })
