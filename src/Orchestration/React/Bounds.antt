-- ===== src/Orchestration/React/Bounds.antt =====
-- The hard limit of src/mini_rag/orchestration/react_executor.py: at most five calls in one run.
use mini_enterprise_rag_agen.Common.{ℕ, zero, suc, ◌+◌, ◌≤◌, List, [], arith, inl, inr, subst}
use mini_enterprise_rag_agen.Orchestration.React.{Task, Action, AgentState, clamp_steps}
use mini_enterprise_rag_agen.Orchestration.React.Rounds.{Loop, Callbacks}
use mini_enterprise_rag_agen.Orchestration.React.Run.{round, run_from, run}
use mini_enterprise_rag_agen.Orchestration.React.Effects.{
  Keeps, rest_of, round-Keeps, Verdict-cases,
}

pub clamp_steps_bounds : (max_steps : ℕ) → (1 ≤ clamp_steps max_steps) × (clamp_steps max_steps ≤ 5)
unfolding clamp_steps
clamp_steps_bounds max_steps = ground arith

-- A measure that a call raises by at most one and a proposal does not raise: the number of calls
-- that the outside world has seen is one.
pub record IsCounter {X : Type 0} (m : X → ℕ) (env : Callbacks X) : Type 0 where
  pub proposing :
      (s : AgentState X) (n : ℕ) (open_tasks : List Task)
      → m (env.next_action s n open_tasks).0.rest ≤ m s.rest
  pub calling :
      (s : AgentState X) (task : Task) (action : Action)
      → m (env.call_tool s task action).0.rest ≤ m s.rest + 1
  pub searching :
      (s : AgentState X) (task : Task) (action : Action)
      → m (env.search_rag s task action).0.rest ≤ m s.rest + 1

module _ {X : Type 0} (m : X → ℕ) (env : Callbacks X) (counts : IsCounter m env) where
  Keeps-below : (k : ℕ) → Keeps (λ x. m x ≤ k) (λ x. m x ≤ k + 1) env
  Keeps-below k = record {
    proposing = λ s n open_tasks h. omega (arith, counts.proposing s n open_tasks);
    calling = λ start s action task _ h. omega (arith, counts.calling s task action);
    searching = λ start s action task _ h. omega (arith, counts.searching s task action);
    weaker = λ x h. omega arith;
  }

  round_count : (n : ℕ) (l : Loop X) → m (rest_of (round env n l)) ≤ m l.state.rest + 1
  round_count n l =
      round-Keeps (λ x. m x ≤ m l.state.rest) (λ x. m x ≤ m l.state.rest + 1) env
        (Keeps-below (m l.state.rest)) n l (omega arith)

  run_from_count :
      (rounds n : ℕ) (l : Loop X) → m (rest_of (run_from env rounds n l)) ≤ m l.state.rest + rounds
  unfolding run_from
  run_from_count zero n l = omega arith
  run_from_count (suc rounds) n l = elim (Verdict-cases (round env n l)) [
    | inl (l', e) ↦
        let step = subst (λ v. m (rest_of v) ≤ m l.state.rest + 1) e (round_count n l) in
        rw (e, run_from) (omega (arith, step, run_from_count rounds (n + 1) l'))
    | inr (inl (s, r, e)) ↦
        let step = subst (λ v. m (rest_of v) ≤ m l.state.rest + 1) e (round_count n l) in
        rw (e, run_from) (omega (arith, step))
    | inr (inr (s, w, e)) ↦
        let step = subst (λ v. m (rest_of v) ≤ m l.state.rest + 1) e (round_count n l) in
        rw (e, run_from) (omega (arith, step))
  ]

-- Whatever limit is asked for, a run makes at most five tool and search calls together.
pub run-calls_bound :
    {X : Type 0} (m : X → ℕ) (env : Callbacks X) (max_steps : ℕ) (state : AgentState X)
    → IsCounter m env
    → m (rest_of (run env max_steps state)) ≤ m state.rest + 5
unfolding run
run-calls_bound m env max_steps state counts = omega (
  arith,
  clamp_steps_bounds max_steps,
  run_from_count m env counts (clamp_steps max_steps) 1
      (record { state = state; steps = []; seen_signatures = []; overall_status = "success" }),
)
