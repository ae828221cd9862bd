-- ===== src/Goals/Loop/Bounds.antt =====
-- The hard limit of `apply_goal_aware_completion` in src/mini_rag/orchestration/goal_react.py: three
-- further runs of the executor.
use mini_enterprise_rag_agen.Common.{
  ℕ, zero, suc, ◌+◌, ◌*◌, ◌≤◌, subst, arith, Option-cases, inl, inr,
}
use mini_enterprise_rag_agen.Orchestration.React.{ExecutionResult, AgentState}
use mini_enterprise_rag_agen.Orchestration.React.Rounds.{Callbacks}
use mini_enterprise_rag_agen.Orchestration.React.Run.{run}
use mini_enterprise_rag_agen.Orchestration.React.Effects.{rest_of, Verdict-cases}
use mini_enterprise_rag_agen.Orchestration.React.Bounds.{IsCounter, run-calls_bound}
use mini_enterprise_rag_agen.Goals.Check.{Goal, SafeNextAction, CompletionCheckResult}
use mini_enterprise_rag_agen.Goals.Append.{append_safe_react_task, appended}
use mini_enterprise_rag_agen.Goals.Loop.{GoalKeys, Nodes, validate_safe_react_task}
use mini_enterprise_rag_agen.Goals.Loop.Rounds.{
  GoalLoop, Outcome, finished, raised, RoundEnd, again, ended, RoundEnd-cases, check_of, recorded,
  blocked_end, follow_up, safe_round, incomplete_round, goal_round, goal_rounds,
  apply_goal_aware_completion,
}

module _ {Y : Type 0} where
  abbrev pub outcome_rest : Outcome Y → Y
  outcome_rest (finished s r) = s.rest.rest
  outcome_rest (raised s m) = s.rest.rest

  abbrev end_rest : RoundEnd Y → Y
  end_rest (again l) = l.state.rest.rest
  end_rest (ended o) = outcome_rest o

-- A measure of the keys that the loop does not touch.
abbrev pub on_rest : {Y : Type 0} → (Y → ℕ) → GoalKeys Y → ℕ
on_rest m keys = m keys.rest

module _ {W Y : Type 0} (m : Y → ℕ) (nodes : Nodes W Y) (env : Callbacks (GoalKeys Y))
    (max_steps : ℕ) (goal : Goal) (counts : IsCounter (on_rest m) env) where
  follow_up_count :
      (n : ℕ) (s : AgentState (GoalKeys Y)) (l : GoalLoop Y)
      → m (end_rest (follow_up nodes env max_steps n s l)) ≤ m s.rest.rest + 5
  unfolding follow_up
  follow_up_count n s l =
      let bound = run-calls_bound (on_rest m) env max_steps s counts in
      elim (Verdict-cases (run env max_steps s)) [
        | inl (l', e) ↦
            rw (follow_up, e) (subst (λ v. on_rest m (rest_of v) ≤ m s.rest.rest + 5) e bound)
        | inr (inl (s', r, e)) ↦
            rw (follow_up, e) (subst (λ v. on_rest m (rest_of v) ≤ m s.rest.rest + 5) e bound)
        | inr (inr (s', w, e)) ↦
            rw (follow_up, e) (subst (λ v. on_rest m (rest_of v) ≤ m s.rest.rest + 5) e bound)
      ]

  safe_round_count :
      (n : ℕ) (check : CompletionCheckResult) (safe : SafeNextAction) (s : AgentState (GoalKeys Y))
      (l : GoalLoop Y)
      → m (end_rest (safe_round nodes env max_steps n check safe s l)) ≤ m s.rest.rest + 5
  unfolding safe_round blocked_end append_safe_react_task appended
  safe_round_count n check safe s l =
      let appended = append_safe_react_task nodes.str s safe.task n in
      elim (Option-cases (validate_safe_react_task nodes appended.0 appended.1)) [
        | inl fine ↦ rw (safe_round, fine) (follow_up_count n _ l)
        | inr (issue, bad) ↦ rw (safe_round, bad) (omega arith)
      ]

  goal_round_count :
      (n : ℕ) (l : GoalLoop Y)
      → m (end_rest (goal_round nodes env max_steps n goal l)) ≤ m l.state.rest.rest + 5
  unfolding goal_round recorded check_of incomplete_round
  goal_round_count n l =
      let check = check_of l.state goal in
      elim (Option-cases check.safe_next_action) [
        | inl stuck ↦ rw (goal_round, incomplete_round, stuck) (ground arith)
        | inr (safe, open_goal) ↦
            rw (goal_round, incomplete_round, open_goal)
              (ground (arith, safe_round_count n check safe (recorded n check l.state) l))
      ]

  goal_rounds_count :
      (left n : ℕ) (l : GoalLoop Y)
      → m (outcome_rest (goal_rounds nodes env max_steps left n goal l))
        ≤ m l.state.rest.rest + left * 5
  unfolding goal_rounds
  goal_rounds_count zero n l = omega arith
  goal_rounds_count (suc left) n l =
      elim (RoundEnd-cases (goal_round nodes env max_steps n goal l)) [
        | inl (l', e) ↦
            rw (goal_rounds, e)
              (omega (
                arith,
                goal_rounds_count left (n + 1) l',
                subst (λ v. m (end_rest v) ≤ m l.state.rest.rest + 5) e (goal_round_count n l),
              ))
        | inr (o, e) ↦
            rw (goal_rounds, e)
              (omega (
                arith,
                subst (λ v. m (end_rest v) ≤ m l.state.rest.rest + 5) e (goal_round_count n l),
              ))
      ]

-- The follow-ups of a run make at most fifteen further tool and search calls together, whatever the
-- goal and the limit that is asked for.
pub apply_goal_aware_completion-calls_bound :
    {W Y : Type 0} (m : Y → ℕ) (nodes : Nodes W Y) (env : Callbacks (GoalKeys Y)) (max_steps : ℕ)
    (state : AgentState (GoalKeys Y)) (before : ExecutionResult)
    → IsCounter (on_rest m) env
    → m (outcome_rest (apply_goal_aware_completion nodes env max_steps state before))
      ≤ m state.rest.rest + 15
unfolding apply_goal_aware_completion
apply_goal_aware_completion-calls_bound m nodes env max_steps state before counts =
    elim (Option-cases state.rest.goal_contract) [
      | inl unset ↦ simp (apply_goal_aware_completion, unset) (omega arith)
      | inr (goal, wanted) ↦
          simp (apply_goal_aware_completion, wanted)
            (goal_rounds_count m nodes env max_steps goal counts 3 1 _)
    ]
