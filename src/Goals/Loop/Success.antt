-- ===== src/Goals/Loop/Success.antt =====
-- What the status "success" of `apply_goal_aware_completion` in
-- src/mini_rag/orchestration/goal_react.py means.
use mini_enterprise_rag_agen.Common.{
  ℕ, zero, suc, ◌+◌, String, ◌≡◌, subst, sym, ◌∙◌, true, some, [], ◌∷◌, ◌==◌, strip, text_or, mem,
  any, Bool-cases, Option-cases, inl, inr, eq_iff,
}
use mini_enterprise_rag_agen.Orchestration.React.{ExecutionResult, AgentState}
use mini_enterprise_rag_agen.Orchestration.React.Rounds.{Callbacks}
use mini_enterprise_rag_agen.Orchestration.React.Effects.{Verdict-cases}
use mini_enterprise_rag_agen.Orchestration.React.Run.{run}
use mini_enterprise_rag_agen.Goals.Check.{Goal, SafeNextAction, CompletionCheckResult}
use mini_enterprise_rag_agen.Goals.Calendar.{is_completed, check_goal_completion-calendar}
use mini_enterprise_rag_agen.Goals.Reaches.{reaches}
use mini_enterprise_rag_agen.Goals.Append.{append_safe_react_task}
use mini_enterprise_rag_agen.Goals.Loop.{
  GoalKeys, GoalResult, Nodes, plain_steps, validate_safe_react_task,
}
use mini_enterprise_rag_agen.Goals.Loop.Rounds.{
  GoalLoop, Outcome, finished, raised, RoundEnd, again, ended, RoundEnd-cases, check_of, recorded,
  blocked_end, follow_up, safe_round, incomplete_round, goal_round, goal_rounds,
  apply_goal_aware_completion,
}

module _ {Y : Type 0} (goal : Goal) where
  -- A report of success comes with results on which the goal is completed.
  abbrev Honest : Outcome Y → Type 0
  Honest (finished s r) = r.status ≡ "success" → is_completed (check_of s goal) ≡ true
  Honest (raised s m) = Unit

  abbrev HonestEnd : RoundEnd Y → Type 0
  HonestEnd (again l) = Unit
  HonestEnd (ended o) = Honest o

partial-success : ◌≡◌ {A = String} "partial" "success" → ⊥
partial-success same = cc ((eq_iff "partial" "success").1 same)

failed-success : ◌≡◌ {A = String} "failed" "success" → ⊥
failed-success same = cc ((eq_iff "failed" "success").1 same)

clarification-success : ◌≡◌ {A = String} "need_clarification" "success" → ⊥
clarification-success same = cc ((eq_iff "need_clarification" "success").1 same)

module _ {W Y : Type 0} (nodes : Nodes W Y) (env : Callbacks (GoalKeys Y)) (max_steps : ℕ)
    (goal : Goal) where
  Honest-follow_up :
      (n : ℕ) (s : AgentState (GoalKeys Y)) (l : GoalLoop Y)
      → HonestEnd goal (follow_up nodes env max_steps n s l)
  unfolding follow_up
  Honest-follow_up n s l = elim (Verdict-cases (run env max_steps s)) [
    | inl (l', e) ↦ rw (follow_up, e) tt
    | inr (inl (s', r, e)) ↦ rw (follow_up, e) tt
    | inr (inr (s', m, e)) ↦ rw (follow_up, e) tt
  ]

  Honest-safe_round :
      (n : ℕ) (check : CompletionCheckResult) (safe : SafeNextAction) (s : AgentState (GoalKeys Y))
      (l : GoalLoop Y)
      → HonestEnd goal (safe_round nodes env max_steps n check safe s l)
  unfolding safe_round blocked_end
  Honest-safe_round n check safe s l =
      let appended = append_safe_react_task nodes.str s safe.task n in
      elim (Option-cases (validate_safe_react_task nodes appended.0 appended.1)) [
        | inl fine ↦ rw (safe_round, fine) (Honest-follow_up n _ l)
        | inr (issue, bad) ↦ rw (safe_round, bad) (λ same. absurd (failed-success same))
      ]

  Honest-incomplete_round :
      (n : ℕ) (check : CompletionCheckResult) (s : AgentState (GoalKeys Y)) (l : GoalLoop Y)
      → HonestEnd goal (incomplete_round nodes env max_steps n check s l)
  unfolding incomplete_round
  Honest-incomplete_round n check s l = elim (Option-cases check.safe_next_action) [
    | inl stuck ↦ rw (incomplete_round, stuck) (λ same. absurd (partial-success same))
    | inr (safe, open_goal) ↦ rw (incomplete_round, open_goal) (Honest-safe_round n check safe s l)
  ]

  Honest-goal_round :
      (n : ℕ) (l : GoalLoop Y) → HonestEnd goal (goal_round nodes env max_steps n goal l)
  unfolding goal_round recorded check_of
  Honest-goal_round n l =
      let check = check_of l.state goal in
      elim (Bool-cases (check.status == "completed")) [
        | inl completed ↦ rw (goal_round, completed) (λ same. completed)
        | inr going ↦ elim (Bool-cases (check.status == "partial")) [
          | inl part ↦ rw (goal_round, going, part) (λ same. absurd (partial-success same))
          | inr no_part ↦ elim (Bool-cases (check.status == "needs_clarification")) [
            | inl unclear ↦
                rw (goal_round, going, no_part, unclear)
                  (λ same. absurd (clarification-success same))
            | inr clear ↦ elim (Bool-cases (check.status == "failed")) [
              | inl bad ↦
                  rw (goal_round, going, no_part, clear, bad) (λ same. absurd (failed-success same))
              | inr open_goal ↦
                  rw (goal_round, going, no_part, clear, open_goal)
                    (Honest-incomplete_round n check _ l)
            ]
          ]
        ]
      ]

  Honest-goal_rounds :
      (left n : ℕ) (l : GoalLoop Y) → Honest goal (goal_rounds nodes env max_steps left n goal l)
  unfolding goal_rounds
  Honest-goal_rounds zero n l = λ same. absurd (partial-success same)
  Honest-goal_rounds (suc left) n l =
      elim (RoundEnd-cases (goal_round nodes env max_steps n goal l)) [
        | inl (l', e) ↦ rw (goal_rounds, e) (Honest-goal_rounds left (n + 1) l')
        | inr (o, e) ↦ rw (goal_rounds, e) (subst (HonestEnd goal) e (Honest-goal_round n l))
      ]

-- If the run after the follow-ups is reported as a success and the goal is to create, update or
-- delete in the calendar, some task result of the final state reaches the goal: a call of the
-- calendar with this action, answered with the status of its success, a real event id and, except
-- for a deletion, an event that has the goal's values.
pub apply_goal_aware_completion-success :
    {W Y : Type 0} (nodes : Nodes W Y) (env : Callbacks (GoalKeys Y)) (max_steps : ℕ)
    (state final : AgentState (GoalKeys Y)) (before : ExecutionResult) (after : GoalResult)
    (goal : Goal)
    → state.rest.goal_contract ≡ some goal
    → mem
        (strip (text_or goal.goal_type ""))
        ("calendar_update" ∷ "calendar_create" ∷ "calendar_delete" ∷ [])
      ≡ true
    → apply_goal_aware_completion nodes env max_steps state before ≡ finished final after
    → after.status ≡ "success"
    → any (reaches (strip (text_or goal.goal_type "")) goal) final.rest.task_results ≡ true
unfolding apply_goal_aware_completion check_of
apply_goal_aware_completion-success nodes env max_steps state final before after goal wanted named e
      same =
    let rounds = goal_rounds nodes env max_steps 3 1 goal (record {
      state = state;
      steps = plain_steps before.steps;
      current_status = before.status;
    }) in
    let looped : rounds ≡ finished final after =
      sym (simp (apply_goal_aware_completion, wanted)) ∙ e in
    sym (
      check_goal_completion-calendar final.rest.task_results final.rest.previous_tool_context goal
        named)
    ∙ subst (Honest goal) looped (Honest-goal_rounds nodes env max_steps goal 3 1 _) same
