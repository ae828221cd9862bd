-- ===== src/Orchestration/React/Effects.antt =====
-- The effects of `ReActExecutor.run` of src/mini_rag/orchestration/react_executor.py outside its own
-- bookkeeping: they are those of the approved callback calls.
use mini_enterprise_rag_agen.Common.{
  ℕ, String, ◌≡◌, refl, true, false, some, List, [], ◌∷◌, ◌==◌, mem, is_empty, arith, Bool-cases,
  Option-cases, inl, inr, ◌⊎◌, ◌∙◌, sym, subst,
}
use mini_enterprise_rag_agen.Orchestration.React.{
  ExecutionResult, Task, Action, AgentState, tasks_of, remaining_tasks, direct_action,
  task_by_action, action_names,
}
use mini_enterprise_rag_agen.Orchestration.React.Guard.{validate_action_scope, action_signature}
use mini_enterprise_rag_agen.Orchestration.React.Scope.{
  name_of, IsApproved, IsApproved-call, IsApproved-search,
}
use mini_enterprise_rag_agen.Orchestration.React.Choice.{coerce-name}
use mini_enterprise_rag_agen.Orchestration.React.Rounds.{
  BatchItem, BatchLoop, Observation, Loop, Verdict, next, returned, violated, Callbacks,
  completed_ids_of, batch_item, batch_items, round_end, after_batch, after_single, after_call,
  finish_round, clarify_round, no_task_round, duplicate_round,
}
use mini_enterprise_rag_agen.Orchestration.React.Run.{choose, call_round, act, checked_act, round}

abbrev pub state_of : {X : Type 0} → Verdict X → AgentState X
state_of (next l) = l.state
state_of (returned state result) = state
state_of (violated state message) = state

module _ {X : Type 0} where
  abbrev pub rest_of : Verdict X → X
  rest_of v = (state_of v).rest

  rest-batch_items :
      (name : String) (items : List BatchItem) (b : BatchLoop X)
      → (batch_items name items b).loop.state.rest ≡ b.loop.state.rest
  unfolding batch_items batch_item
  rest-batch_items name [] b = refl
  rest-batch_items name (item ∷ items) b =
      rest-batch_items name items (batch_item name item b) ∙ ground arith

  rest-round_end : (l : Loop X) → rest_of (round_end l) ≡ l.state.rest
  unfolding round_end
  rest-round_end l = ground arith

  rest-after_single :
      (n : ℕ) (name : String) (task : Task) (raw : Observation) (l : Loop X)
      → rest_of (after_single n name task raw l) ≡ l.state.rest
  unfolding after_single round_end
  rest-after_single n name task raw l = ground arith

  rest-after_batch : (b : BatchLoop X) → rest_of (after_batch b) ≡ b.loop.state.rest
  unfolding after_batch
  rest-after_batch b = ground (arith, rest-round_end b.loop)

  rest-after_call :
      (n : ℕ) (name : String) (task : Task) (r : AgentState X × Observation) (l : Loop X)
      → rest_of (after_call n name task r l) ≡ r.0.rest
  unfolding after_call
  rest-after_call n name task (s, raw) l = elim (Bool-cases (is_empty raw.batch_results)) [
    | inl single ↦ rw single (rest-after_single n name task raw (record l { state = s }))
    | inr batch ↦ rw batch (rest-after_batch _ ∙ rest-batch_items name raw.batch_results _)
  ]

  rest-duplicate_round :
      (n : ℕ) (name signature : String) (action : Action) (task : Task) (l : Loop X)
      → rest_of (duplicate_round n name signature action task l) ≡ l.state.rest
  unfolding duplicate_round
  rest-duplicate_round n name signature action task l = ground arith

-- The state in which a round begins decides what it may call.
abbrev pub IsApprovedAt : {X : Type 0} → AgentState X → String → Action → Task → Type 0
IsApprovedAt s kind action task =
    IsApproved kind action task (remaining_tasks s (tasks_of s)) (tasks_of s)
      (completed_ids_of s (tasks_of s) (remaining_tasks s (tasks_of s)))

-- Proposals, and approved tool and search calls, take a rest that `P` holds of to one that `Q`
-- holds of; nothing is said of other calls.
pub record Keeps {X : Type 0} (P Q : X → Type 0) (env : Callbacks X) : Type 0 where
  pub proposing :
      (s : AgentState X) (n : ℕ) (open_tasks : List Task)
      → P s.rest
      → P (env.next_action s n open_tasks).0.rest
  pub calling :
      (start s : AgentState X) (action : Action) (task : Task)
      → IsApprovedAt start "tool" action task
      → P s.rest
      → Q (env.call_tool s task action).0.rest
  pub searching :
      (start s : AgentState X) (action : Action) (task : Task)
      → IsApprovedAt start "rag" action task
      → P s.rest
      → Q (env.search_rag s task action).0.rest
  pub weaker : (x : X) → P x → Q x

module _ {X : Type 0} (env : Callbacks X) (Q : X → Type 0) where
  call_round_rest :
      (n : ℕ) (name : String) (action : Action) (task : Task) (l : Loop X)
      → Q l.state.rest
      → ((name == "call_tool") ≡ true → Q (env.call_tool l.state task action).0.rest)
      → ((name == "call_tool") ≡ false → Q (env.search_rag l.state task action).0.rest)
      → Q (rest_of (call_round env n name action task l))
  unfolding call_round
  call_round_rest n name action task l quiet call search =
      elim (Bool-cases (mem (action_signature env.dumps action task) l.seen_signatures)) [
        | inl seen ↦ rw seen (subst Q (sym (rest-duplicate_round n name _ action task l)) quiet)
        | inr fresh ↦ elim (Bool-cases (name == "call_tool")) [
          | inl c ↦ rw (fresh, c) (subst Q (sym (rest-after_call n name task _ _)) (call c))
          | inr o ↦ rw (fresh, o) (subst Q (sym (rest-after_call n name task _ _)) (search o))
        ]
      ]

  act_rest :
      (n : ℕ) (tasks : List Task) (action : Action) (l : Loop X)
      → mem (name_of action) action_names ≡ true
      → Q l.state.rest
      → ((name_of action == "call_tool") ≡ true
          → Q (env.call_tool l.state (task_by_action tasks action) action).0.rest)
      → ((name_of action == "search_rag") ≡ true
          → Q (env.search_rag l.state (task_by_action tasks action) action).0.rest)
      → Q (rest_of (act env n tasks action l))
  unfolding act finish_round clarify_round mem
  act_rest n tasks action l known quiet call search =
      elim (Bool-cases (name_of action == "finish")) [
        | inl f ↦ rw f quiet
        | inr nf ↦ elim (Bool-cases (name_of action == "ask_clarification")) [
          | inl a ↦ rw (nf, a) quiet
          | inr na ↦
              rw (nf, na)
                (call_round_rest n (name_of action) action (task_by_action tasks action) l quiet
                  call (λ other. search (ground arith)))
        ]
      ]

choose-name :
    {X : Type 0} (env : Callbacks X) (s : AgentState X) (n : ℕ) (remaining : List Task)
    (completed_ids : List String)
    → mem (name_of (choose env s n remaining completed_ids).1) action_names ≡ true
unfolding choose
choose-name env s n remaining completed_ids =
    elim (Option-cases (direct_action s remaining completed_ids)) [
      | inl ask ↦ rw (ask, choose) (coerce-name (env.next_action s n remaining).1 remaining)
      | inr (a, direct) ↦ rw (direct, choose) (coerce-name (some a) remaining)
    ]

module _ {X : Type 0} (P Q : X → Type 0) (env : Callbacks X) (keeps : Keeps P Q env) where
  choose_rest :
      (s : AgentState X) (n : ℕ) (remaining : List Task) (completed_ids : List String)
      → P s.rest
      → P (choose env s n remaining completed_ids).0.rest
  unfolding choose
  choose_rest s n remaining completed_ids h =
      elim (Option-cases (direct_action s remaining completed_ids)) [
        | inl ask ↦ rw (ask, choose) (keeps.proposing s n remaining h)
        | inr (a, direct) ↦ rw (direct, choose) h
      ]

  checked_act_rest :
      (start s : AgentState X) (n : ℕ) (action : Action) (l : Loop X)
      → mem (name_of action) action_names ≡ true
      → P s.rest
      → Q (
          rest_of (
            checked_act env n
              (tasks_of start)
              (remaining_tasks start (tasks_of start))
              (completed_ids_of start (tasks_of start) (remaining_tasks start (tasks_of start)))
              (s, action)
              l))
  unfolding checked_act
  checked_act_rest start s n action l known h =
      let tasks = tasks_of start in
      let remaining = remaining_tasks start tasks in
      let completed_ids = completed_ids_of start tasks remaining in
      elim (Option-cases (validate_action_scope action remaining tasks completed_ids)) [
        | inl passed ↦
            rw (passed, checked_act)
              (act_rest env Q n tasks action (record l { state = s }) known (keeps.weaker s.rest h)
                (λ c.
                  keeps.calling start s action (task_by_action tasks action)
                    (IsApproved-call action remaining tasks completed_ids c passed) h)
                (λ c.
                  keeps.searching start s action (task_by_action tasks action)
                    (IsApproved-search action remaining tasks completed_ids c passed) h))
        | inr (message, raised) ↦ rw (raised, checked_act) (keeps.weaker s.rest h)
      ]

  pub round-Keeps : (n : ℕ) (l : Loop X) → P l.state.rest → Q (rest_of (round env n l))
  unfolding round no_task_round
  round-Keeps n l h =
      let tasks = tasks_of l.state in
      let remaining = remaining_tasks l.state tasks in
      let completed_ids = completed_ids_of l.state tasks remaining in
      elim (Bool-cases (is_empty remaining)) [
        | inl nothing ↦ rw nothing (keeps.weaker l.state.rest h)
        | inr open_tasks ↦ rw open_tasks (
            checked_act_rest l.state (choose env l.state n remaining completed_ids).0 n
              (choose env l.state n remaining completed_ids).1 l
              (choose-name env l.state n remaining completed_ids)
              (choose_rest l.state n remaining completed_ids h))
      ]

pub Verdict-cases :
    {X : Type 0} (v : Verdict X)
    → ((l : Loop X) × (v ≡ next l))
      ⊎ (((s : AgentState X) × (r : ExecutionResult) × (v ≡ returned s r))
          ⊎ ((s : AgentState X) × (m : String) × (v ≡ violated s m)))
Verdict-cases (next l) = inl (l, refl)
Verdict-cases (returned s r) = inr (inl (s, r, refl))
Verdict-cases (violated s m) = inr (inr (s, m, refl))
