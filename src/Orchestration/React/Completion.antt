-- ===== src/Orchestration/React/Completion.antt =====
-- What the status "success" of src/mini_rag/orchestration/react_executor.py promises.
use mini_enterprise_rag_agen.Common.{
  ℕ, zero, suc, ◌+◌, String, ◌≡◌, ◌≢◌, refl, true, ◌&&◌, not, List, [], ◌∷◌, ◌==◌, eq_iff,
  if◌then◌else◌, text_or, mem, is_empty, filter, arith, Bool-cases, Option-cases, inl, inr, subst,
}
use mini_enterprise_rag_agen.Orchestration.React.{
  Task, Action, AgentState, ExecutionResult, tasks_of, remaining_tasks, direct_action,
  task_by_action, clamp_steps, is_executable, task_id_of,
}
use mini_enterprise_rag_agen.Orchestration.React.Guard.{
  validate_action_scope, action_signature, is_duplicate_read_action,
}
use mini_enterprise_rag_agen.Orchestration.React.Scope.{name_of, finish_allowed}
use mini_enterprise_rag_agen.Orchestration.React.Rounds.{
  BatchLoop, Observation, Loop, Verdict, returned, Callbacks, completed_ids_of, round_end,
  after_batch, after_single, after_call, finish_round, clarify_round, no_task_round,
  duplicate_round, stopping,
}
use mini_enterprise_rag_agen.Orchestration.React.Run.{
  choose, call_round, act, checked_act, round, run_from, run,
}
use mini_enterprise_rag_agen.Orchestration.React.Effects.{Verdict-cases}

stopping-success : (s : String) → mem s stopping ≡ true → s ≢ "success"
unfolding mem
stopping-success s h e = cc (subst (λ t. mem t stopping ≡ true) e h)

clarify-success : ◌≡◌ {A = String} "need_clarification" "success" → ⊥
clarify-success e = cc ((eq_iff "need_clarification" "success").1 e)

partial-success : ◌≡◌ {A = String} "partial" "success" → ⊥
partial-success e = cc ((eq_iff "partial" "success").1 e)

module _ {X : Type 0} where
  -- The tool and search tasks of the state that are not completed.
  abbrev pub open_executable : AgentState X → List Task
  open_executable s = filter is_executable (remaining_tasks s (tasks_of s))

  -- A result with the status "success" leaves no such task.
  abbrev pub Honest : Verdict X → Type 0
  Honest (returned s r) = r.status ≡ "success" → is_empty (open_executable s) ≡ true
  Honest _ = Unit

  Honest-round_end : (l : Loop X) → Honest (round_end l)
  unfolding round_end
  Honest-round_end l = elim (Bool-cases (is_empty (open_executable l.state))) [
    | inl done ↦ rw done (λ _. done)
    | inr more ↦ rw more tt
  ]

  Honest-after_single :
      (n : ℕ) (name : String) (task : Task) (raw : Observation) (l : Loop X)
      → Honest (after_single n name task raw l)
  unfolding after_single mem
  Honest-after_single n name task raw l =
      elim (Bool-cases (mem (text_or raw.status "success") stopping)) [
        | inl stop ↦ rw stop (λ same. absurd (stopping-success _ stop same))
        | inr go ↦ rw go (Honest-round_end _)
      ]

  Honest-after_batch : (b : BatchLoop X) → Honest (after_batch b)
  unfolding after_batch
  Honest-after_batch b =
      elim (Bool-cases
        (not (b.terminal_status == "success") && not (b.terminal_status == "partial"))) [
          | inl stop ↦ rw stop (λ same. ground (arith, eq_iff b.terminal_status "success"))
          | inr go ↦ rw go (Honest-round_end b.loop)
        ]

  Honest-after_call :
      (n : ℕ) (name : String) (task : Task) (r : AgentState X × Observation) (l : Loop X)
      → Honest (after_call n name task r l)
  unfolding after_call
  Honest-after_call n name task (s, raw) l = elim (Bool-cases (is_empty raw.batch_results)) [
    | inl single ↦ rw single (Honest-after_single n name task raw (record l { state = s }))
    | inr batch ↦ rw batch (Honest-after_batch _)
  ]

  Honest-duplicate_round :
      (n : ℕ) (name signature : String) (action : Action) (task : Task) (l : Loop X)
      → Honest (duplicate_round n name signature action task l)
  unfolding duplicate_round
  Honest-duplicate_round n name signature action task l =
      elim (Bool-cases (is_duplicate_read_action action task)) [
        | inl reuse ↦ rw reuse tt
        | inr blocked ↦ rw blocked tt
      ]

nothing_open :
    (tasks : List Task) → is_empty tasks ≡ true → is_empty (filter is_executable tasks) ≡ true
unfolding filter
nothing_open [] h = refl
nothing_open (t ∷ ts) h = cc

-- A proposal leaves the plan and the progress as they are.
pub record KeepsPlan {X : Type 0} (env : Callbacks X) : Type 0 where
  pub queue :
      (s : AgentState X) (n : ℕ) (open_tasks : List Task)
      → (env.next_action s n open_tasks).0.task_queue ≡ s.task_queue
  pub plan :
      (s : AgentState X) (n : ℕ) (open_tasks : List Task)
      → (env.next_action s n open_tasks).0.plan_tasks ≡ s.plan_tasks
  pub completed :
      (s : AgentState X) (n : ℕ) (open_tasks : List Task)
      → (env.next_action s n open_tasks).0.completed_tasks ≡ s.completed_tasks

module _ {X : Type 0} where
  same_open :
      (s t : AgentState X)
      → s.task_queue ≡ t.task_queue
      → s.plan_tasks ≡ t.plan_tasks
      → s.completed_tasks ≡ t.completed_tasks
      → open_executable s ≡ open_executable t
  unfolding tasks_of remaining_tasks
  same_open s t a b c = λ i.
      filter is_executable
        (filter (λ t. not (mem (task_id_of t) (c i))) (if is_empty (a i) then b i else a i))

  Honest-no_task_round :
      (n : ℕ) (l : Loop X)
      → is_empty (remaining_tasks l.state (tasks_of l.state)) ≡ true
      → Honest (no_task_round n l)
  unfolding no_task_round tasks_of remaining_tasks
  Honest-no_task_round n l h = λ _. nothing_open (remaining_tasks l.state (tasks_of l.state)) h

module _ {X : Type 0} (env : Callbacks X) (keeps : KeepsPlan env) where
  Honest-act :
      (n : ℕ) (tasks : List Task) (action : Action) (l : Loop X)
      → (name_of action ≡ "finish" → is_empty (open_executable l.state) ≡ true)
      → Honest (act env n tasks action l)
  unfolding act finish_round clarify_round call_round tasks_of remaining_tasks
  Honest-act n tasks action l allowed =
      let name = text_or action.next_action "" in
      let task = task_by_action tasks action in
      elim (Bool-cases (name == "finish")) [
        | inl f ↦ rw f (λ _. (allowed ((eq_iff name "finish").0 f)))
        | inr nf ↦ elim (Bool-cases (name == "ask_clarification")) [
          | inl a ↦ rw (nf, a) (λ same. absurd (clarify-success same))
          | inr na ↦
              elim (Bool-cases (mem (action_signature env.dumps action task) l.seen_signatures)) [
                | inl seen ↦ rw (nf, na, seen) (Honest-duplicate_round n name _ action task l)
                | inr fresh ↦ rw (nf, na, fresh) (Honest-after_call n name task _ _)
              ]
        ]
      ]

  choose_open :
      (s : AgentState X) (n : ℕ) (remaining : List Task) (completed_ids : List String)
      → open_executable (choose env s n remaining completed_ids).0 ≡ open_executable s
  unfolding choose
  choose_open s n remaining completed_ids =
      elim (Option-cases (direct_action s remaining completed_ids)) [
        | inl ask ↦
            rw (ask, choose)
              (same_open _ s (keeps.queue s n remaining) (keeps.plan s n remaining)
                (keeps.completed s n remaining))
        | inr (a, direct) ↦ rw (direct, choose)
      ]

  Honest-checked_act :
      (start : AgentState X) (n : ℕ) (completed_ids : List String) (sa : AgentState X × Action)
      (l : Loop X)
      → open_executable sa.0 ≡ open_executable start
      → Honest (
          checked_act env n
            (tasks_of start)
            (remaining_tasks start (tasks_of start))
            completed_ids
            sa
            l)
  unfolding checked_act
  Honest-checked_act start n completed_ids (s, action) l same =
      let tasks = tasks_of start in
      let remaining = remaining_tasks start tasks in
      elim (Option-cases (validate_action_scope action remaining tasks completed_ids)) [
        | inl passed ↦
            rw (passed, checked_act)
              (Honest-act n tasks action (record l { state = s })
                (λ name.
                  rw same ((finish_allowed action remaining tasks completed_ids name).0 passed)))
        | inr (message, raised) ↦ rw (raised, checked_act) tt
      ]

  Honest-round : (n : ℕ) (l : Loop X) → Honest (round env n l)
  unfolding round
  Honest-round n l =
      let remaining = remaining_tasks l.state (tasks_of l.state) in
      let completed_ids = completed_ids_of l.state (tasks_of l.state) remaining in
      elim (Bool-cases (is_empty remaining)) [
        | inl nothing ↦ rw nothing (Honest-no_task_round n l nothing)
        | inr open_tasks ↦ rw open_tasks (
            Honest-checked_act l.state n completed_ids
              (choose env l.state n remaining completed_ids) l
              (choose_open l.state n remaining completed_ids))
      ]

  Honest-run_from : (rounds n : ℕ) (l : Loop X) → Honest (run_from env rounds n l)
  unfolding run_from
  Honest-run_from zero n l = λ same. absurd (partial-success same)
  Honest-run_from (suc rounds) n l = elim (Verdict-cases (round env n l)) [
    | inl (l', e) ↦ rw (e, run_from) (Honest-run_from rounds (n + 1) l')
    | inr (inl (s, r, e)) ↦ rw (e, run_from) (subst Honest e (Honest-round n l))
    | inr (inr (s, m, e)) ↦ rw (e, run_from) (subst Honest e (Honest-round n l))
  ]

-- A run that reports "success" has left no tool or search task of its plan open, provided that
-- proposals do not rewrite the plan or the progress.
pub run-success :
    {X : Type 0} (env : Callbacks X) (max_steps : ℕ) (state final : AgentState X)
    (result : ExecutionResult)
    → KeepsPlan env
    → run env max_steps state ≡ returned final result
    → result.status ≡ "success"
    → is_empty (open_executable final) ≡ true
unfolding run
run-success env max_steps state final result keeps e =
    subst Honest e (Honest-run_from env keeps (clamp_steps max_steps) 1 _)
