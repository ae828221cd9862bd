-- ===== src/Goals/Append.antt =====
-- `append_safe_react_task` of src/mini_rag/orchestration/goal_react.py. `str` is Python's decimal text
-- of a number. The loop runs on fuel, two tests more than there are ids in use.
use mini_enterprise_rag_agen.Common.{
  ℕ, zero, suc, ◌+◌, ◌≤◌, ◌<◌, String, ◌≡◌, refl, ◌∙◌, ap, true, false, not, none, some, List, [],
  ◌∷◌, ◌++◌, map, ◌==◌, ◌+++◌, if◌then◌else◌, text_or, mem, mem-filter, filter, length, arith,
  Bool-cases, inl, inr, eq_iff,
}
use text.Mathlib.TextLemmas.{append_cancel_left}
use mini_enterprise_rag_agen.Orchestration.React.{Task, AgentState}

-- `str(item.get("task_id") or "")`.
unfoldable pub raw_id : Task → String
raw_id task = text_or task.task_id ""

unfoldable pub taken_ids : {X : Type 0} → AgentState X → List String
taken_ids state = map raw_id (state.task_queue ++ state.plan_tasks) ++ state.completed_tasks

module _ (str : ℕ → String) where
  abbrev pub numbered : String → ℕ → String
  numbered base suffix = base +++ ("_" +++ str suffix)

  -- The `while` loop.
  unfoldable pub next_free : ℕ → List String → String → String → ℕ → String
  next_free zero taken base task_id suffix = task_id
  next_free (suc fuel) taken base task_id suffix =
      let later = next_free fuel taken base (numbered base (suffix + 1)) (suffix + 1) in
      if mem task_id taken then later else task_id

  unfoldable pub free_id : List String → String → ℕ → String
  free_id taken base iteration = next_free (suc (suc (length taken))) taken base base iteration

  module _ {X : Type 0} where
    unfoldable pub safe_candidate : AgentState X → Task → ℕ → Task
    safe_candidate state task iteration = record task {
      task_id =
          some (
            free_id (taken_ids state) (text_or task.task_id "goal_react_calendar_update")
              iteration);
    }

    -- The state after `candidate` is appended.
    unfoldable pub appended : AgentState X → Task → AgentState X
    appended state candidate = record state {
      plan_tasks = state.plan_tasks ++ candidate ∷ [];
      task_queue = state.task_queue ++ candidate ∷ [];
      executable_tasks = state.executable_tasks ++ candidate ∷ [];
      validation_status = elim state.validation_status [ none ↦ some "valid" | some s ↦ some s ];
    }

    unfoldable pub append_safe_react_task : AgentState X → Task → ℕ → AgentState X × Task
    append_safe_react_task state task iteration =
        let candidate = safe_candidate state task iteration in (appended state candidate, candidate)

-- The ids that differ from `x`.
abbrev except : String → List String → List String
except x ids = filter (λ y. not (y == x)) ids

length-except : (x : String) (ids : List String) → (length (except x ids) ≤ length ids)
unfolding filter
length-except x [] = omega arith
length-except x (y ∷ ids) = ground (arith, length-except x ids)

length-except_member :
    (x : String) (ids : List String) → mem x ids ≡ true → length (except x ids) < length ids
unfolding filter mem
length-except_member x [] h = cc
length-except_member x (y ∷ ids) h =
    ground (arith, length-except x ids, length-except_member x ids, eq_iff x y, eq_iff y x)

module _ (str : ℕ → String) (injective : (m n : ℕ) → str m ≡ str n → m ≡ n) where
  numbered_distinct : (base : String) (m n : ℕ) → numbered str base m ≡ numbered str base n → m ≡ n
  numbered_distinct base m n same =
      injective m n (append_cancel_left "_" _ _ (append_cancel_left base _ _ same))

  -- `small` holds the ids in use that later candidates can still meet.
  next_free_lem :
      (fuel : ℕ) (taken small : List String) (base : String) (n : ℕ)
      → length small < fuel
      → ((k : ℕ)
          → n ≤ k
          → mem (numbered str base k) taken ≡ true
          → mem (numbered str base k) small ≡ true)
      → mem (next_free str fuel taken base (numbered str base n) n) taken ≡ false
  unfolding next_free
  next_free_lem zero taken small base n room covers = absurd (omega (arith, room))
  next_free_lem (suc fuel) taken small base n room covers =
      elim (Bool-cases (mem (numbered str base n) taken)) [
        | inr free ↦ rw (next_free, free) free
        | inl used ↦
            rw (next_free, used)
              (next_free_lem fuel taken (except (numbered str base n) small) base (n + 1)
                (omega (
                  arith,
                  length-except_member (numbered str base n) small (covers n (omega arith) used),
                ))
                (λ k above met. ground (
                  arith,
                  mem-filter (numbered str base k) (λ y. not (y == numbered str base n)) small,
                  covers k (omega (arith, above)) met,
                  eq_iff (numbered str base k) (numbered str base n),
                  numbered_distinct base k n,
                )))
      ]

  or_empty : (x : String) → text_or (some x) "" ≡ x
  or_empty x = ground (arith, eq_iff x "")

  free_id_new :
      (taken : List String) (base : String) (n : ℕ) → mem (free_id str taken base n) taken ≡ false
  unfolding free_id next_free
  free_id_new taken base n = elim (Bool-cases (mem base taken)) [
    | inr free ↦ rw (free_id, next_free, free) free
    | inl used ↦
        rw (free_id, next_free, used)
          (next_free_lem (suc (length taken)) taken taken base (n + 1) (omega arith)
            (λ k above met. met))
  ]

  -- The search for an id ends, and the task that is appended has an id that no task of the queue or
  -- of the plan has and that is not completed; the queue, the plan and the executable tasks keep
  -- their tasks and end with the new one.
  pub append_safe_react_task-fresh :
      {X : Type 0} (state : AgentState X) (task : Task) (iteration : ℕ)
      → let (after, candidate) = append_safe_react_task str state task iteration in
        (mem (raw_id candidate) (taken_ids state) ≡ false)
        × (after.task_queue ≡ state.task_queue ++ candidate ∷ [])
        × (after.plan_tasks ≡ state.plan_tasks ++ candidate ∷ [])
        × (after.executable_tasks ≡ state.executable_tasks ++ candidate ∷ [])
  unfolding append_safe_react_task appended safe_candidate raw_id
  append_safe_react_task-fresh state task iteration = (
    ap (λ x. mem x (taken_ids state)) (or_empty _)
        ∙ free_id_new (taken_ids state) (text_or task.task_id "goal_react_calendar_update")
            iteration,
    refl,
    refl,
    refl,
  )
