-- ===== src/Orchestration/React/Repeats.antt =====
-- Duplicate prevention in src/mini_rag/orchestration/react_executor.py.
use mini_enterprise_rag_agen.Common.{
  ℕ, zero, suc, ◌+◌, String, ◌≡◌, false, ◌&&◌, not, List, [], ◌∷◌, ◌==◌, text_or, mem, is_empty,
  filter, arith, Bool-cases, Option-cases, inl, inr, ap, ◌∙◌, sym, subst,
}
use mini_enterprise_rag_agen.Orchestration.React.{
  Task, Action, AgentState, tasks_of, remaining_tasks, direct_action, task_by_action, clamp_steps,
  is_executable,
}
use mini_enterprise_rag_agen.Orchestration.React.Guard.{
  validate_action_scope, action_signature, is_duplicate_read_action,
}
use mini_enterprise_rag_agen.Orchestration.React.Rounds.{
  BatchItem, BatchLoop, Observation, Loop, Verdict, next, returned, violated, Callbacks,
  completed_ids_of, batch_item, batch_items, round_end, after_batch, after_single, after_call,
  finish_round, clarify_round, no_task_round, duplicate_round, stopping,
}
use mini_enterprise_rag_agen.Orchestration.React.Run.{
  choose, call_round, act, checked_act, round, run_from, run,
}
use mini_enterprise_rag_agen.Orchestration.React.Effects.{rest_of, Verdict-cases}

abbrev pub NoRepeat : List String → Type 0
NoRepeat [] = Unit
NoRepeat (x ∷ xs) = (mem x xs ≡ false) × NoRepeat xs

-- The log of the outside world is the executor's list of seen signatures.
abbrev Logged : Loop (List String) → Type 0
Logged l = (l.state.rest ≡ l.seen_signatures) × NoRepeat l.seen_signatures

abbrev Fine : Verdict (List String) → Type 0
Fine (next l) = Logged l
Fine (returned s r) = NoRepeat s.rest
Fine (violated s m) = NoRepeat s.rest

of_Logged : (l : Loop (List String)) → Logged l → NoRepeat l.state.rest
of_Logged l (e, h) = subst NoRepeat (sym e) h

Fine-round_end : (l : Loop (List String)) → Logged l → Fine (round_end l)
unfolding round_end
Fine-round_end l h =
    elim (Bool-cases
      (is_empty (filter is_executable (remaining_tasks l.state (tasks_of l.state))))) [
        | inl done ↦ rw done (of_Logged l h)
        | inr more ↦ rw more h
      ]

Fine-after_single :
    (n : ℕ) (name : String) (task : Task) (raw : Observation) (l : Loop (List String))
    → Logged l
    → Fine (after_single n name task raw l)
unfolding after_single
Fine-after_single n name task raw l h =
    elim (Bool-cases (mem (text_or raw.status "success") stopping)) [
      | inl stop ↦ rw stop (subst NoRepeat (ground arith) (of_Logged l h))
      | inr go ↦ rw go (Fine-round_end _ (ground arith, h.1))
    ]

Logged-batch_items :
    (name : String) (items : List BatchItem) (b : BatchLoop (List String))
    → Logged b.loop
    → Logged (batch_items name items b).loop
unfolding batch_items batch_item
Logged-batch_items name [] b h = h
Logged-batch_items name (item ∷ items) b h =
    Logged-batch_items name items (batch_item name item b) (ground arith, h.1)

Fine-after_batch : (b : BatchLoop (List String)) → Logged b.loop → Fine (after_batch b)
unfolding after_batch
Fine-after_batch b h =
    elim (Bool-cases
      (not (b.terminal_status == "success") && not (b.terminal_status == "partial"))) [
        | inl stop ↦ rw stop (of_Logged b.loop h)
        | inr go ↦ rw go (Fine-round_end b.loop h)
      ]

Fine-after_call :
    (n : ℕ) (name : String) (task : Task) (r : AgentState (List String) × Observation)
    (l : Loop (List String))
    → Logged (record l { state = r.0 })
    → Fine (after_call n name task r l)
unfolding after_call
Fine-after_call n name task (s, raw) l h = elim (Bool-cases (is_empty raw.batch_results)) [
  | inl single ↦ rw single (Fine-after_single n name task raw (record l { state = s }) h)
  | inr batch ↦ rw batch (Fine-after_batch _ (Logged-batch_items name raw.batch_results _ h))
]

Fine-duplicate_round :
    (n : ℕ) (name signature : String) (action : Action) (task : Task) (l : Loop (List String))
    → Logged l
    → Fine (duplicate_round n name signature action task l)
unfolding duplicate_round
Fine-duplicate_round n name signature action task l h =
    elim (Bool-cases (is_duplicate_read_action action task)) [
      | inl reuse ↦ rw reuse (ground arith, h.1)
      | inr blocked ↦ rw blocked (of_Logged l h)
    ]

-- Callbacks whose world is the log of the signatures that were called, the newest first.
pub record LogsCalls (env : Callbacks (List String)) : Type 0 where
  pub proposing :
      (s : AgentState (List String)) (n : ℕ) (open_tasks : List Task)
      → (env.next_action s n open_tasks).0.rest ≡ s.rest
  pub calling :
      (s : AgentState (List String)) (task : Task) (action : Action)
      → (env.call_tool s task action).0.rest ≡ action_signature env.dumps action task ∷ s.rest
  pub searching :
      (s : AgentState (List String)) (task : Task) (action : Action)
      → (env.search_rag s task action).0.rest ≡ action_signature env.dumps action task ∷ s.rest

module _ (env : Callbacks (List String)) (logs : LogsCalls env) where
  Fine-call_round :
      (n : ℕ) (name : String) (action : Action) (task : Task) (l : Loop (List String))
      → Logged l
      → Fine (call_round env n name action task l)
  unfolding call_round
  Fine-call_round n name action task l h =
      let signature = action_signature env.dumps action task in
      elim (Bool-cases (mem signature l.seen_signatures)) [
        | inl seen ↦ rw seen (Fine-duplicate_round n name signature action task l h)
        | inr fresh ↦ elim (Bool-cases (name == "call_tool")) [
          | inl c ↦
              rw (fresh, c)
                (Fine-after_call n name task (env.call_tool l.state task action) _
                  (logs.calling l.state task action ∙ ap (λ t. signature ∷ t) h.0, (fresh, h.1)))
          | inr o ↦
              rw (fresh, o)
                (Fine-after_call n name task (env.search_rag l.state task action) _
                  (logs.searching l.state task action ∙ ap (λ t. signature ∷ t) h.0, (fresh, h.1)))
        ]
      ]

  Fine-act :
      (n : ℕ) (tasks : List Task) (action : Action) (l : Loop (List String))
      → Logged l
      → Fine (act env n tasks action l)
  unfolding act finish_round clarify_round
  Fine-act n tasks action l h =
      let name = text_or action.next_action "" in
      elim (Bool-cases (name == "finish")) [
        | inl f ↦ rw f (of_Logged l h)
        | inr nf ↦ elim (Bool-cases (name == "ask_clarification")) [
          | inl a ↦ rw (nf, a) (of_Logged l h)
          | inr na ↦ rw (nf, na) (Fine-call_round n name action (task_by_action tasks action) l h)
        ]
      ]

  Fine-checked_act :
      (n : ℕ) (tasks remaining : List Task) (completed_ids : List String)
      (sa : AgentState (List String) × Action) (l : Loop (List String))
      → Logged (record l { state = sa.0 })
      → Fine (checked_act env n tasks remaining completed_ids sa l)
  unfolding checked_act
  Fine-checked_act n tasks remaining completed_ids (s, action) l h =
      elim (Option-cases (validate_action_scope action remaining tasks completed_ids)) [
        | inl passed ↦ rw (passed, checked_act) (Fine-act n tasks action (record l { state = s }) h)
        | inr (message, raised) ↦ rw (raised, checked_act) (of_Logged (record l { state = s }) h)
      ]

  choose_logged :
      (s : AgentState (List String)) (n : ℕ) (remaining : List Task) (completed_ids : List String)
      → (choose env s n remaining completed_ids).0.rest ≡ s.rest
  unfolding choose
  choose_logged s n remaining completed_ids =
      elim (Option-cases (direct_action s remaining completed_ids)) [
        | inl ask ↦ rw (ask, choose) (logs.proposing s n remaining)
        | inr (a, direct) ↦ rw (direct, choose)
      ]

  Fine-round : (n : ℕ) (l : Loop (List String)) → Logged l → Fine (round env n l)
  unfolding round no_task_round
  Fine-round n l h =
      let remaining = remaining_tasks l.state (tasks_of l.state) in
      let completed_ids = completed_ids_of l.state (tasks_of l.state) remaining in
      elim (Bool-cases (is_empty remaining)) [
        | inl nothing ↦ rw nothing (of_Logged l h)
        | inr open_tasks ↦ rw open_tasks (
            Fine-checked_act n (tasks_of l.state) remaining completed_ids
              (choose env l.state n remaining completed_ids) l
              (choose_logged l.state n remaining completed_ids ∙ h.0, h.1))
      ]

  Fine-run_from :
      (rounds n : ℕ) (l : Loop (List String))
      → Logged l
      → NoRepeat (rest_of (run_from env rounds n l))
  unfolding run_from
  Fine-run_from zero n l h = of_Logged l h
  Fine-run_from (suc rounds) n l h = elim (Verdict-cases (round env n l)) [
    | inl (l', e) ↦
        rw (e, run_from) (Fine-run_from rounds (n + 1) l' (subst Fine e (Fine-round n l h)))
    | inr (inl (s, r, e)) ↦ rw (e, run_from) (subst Fine e (Fine-round n l h))
    | inr (inr (s, m, e)) ↦ rw (e, run_from) (subst Fine e (Fine-round n l h))
  ]

-- No call is made twice in one run: with callbacks that log the signature of each call, the log of
-- a run that starts with an empty log has no entry twice.
pub run-NoRepeat :
    (env : Callbacks (List String)) (max_steps : ℕ) (state : AgentState (List String))
    → LogsCalls env
    → state.rest ≡ []
    → NoRepeat (rest_of (run env max_steps state))
unfolding run
run-NoRepeat env max_steps state logs empty =
    Fine-run_from env logs (clamp_steps max_steps) 1 _ (empty, tt)
