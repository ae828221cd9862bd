-- ===== src/Orchestration/React/Scope.antt =====
-- What the scope check of src/mini_rag/orchestration/react_executor.py lets through.
use mini_enterprise_rag_agen.Common.{
  String, strip, ap, All, [], ◌∷◌, ◌≡◌, refl, Bool, true, false, ◌||◌, not, none, some, List, map,
  ◌==◌, eq_iff, text_or, mem, filter, is_empty, arith, ◌⊎◌, ◌↔◌,
}
use mini_enterprise_rag_agen.Orchestration.React.{
  Task, Action, task_id_of, kind_of, tool_of, dependencies_of, is_executable, task_by_action,
  wanted_id,
}
use mini_enterprise_rag_agen.Orchestration.React.Guard.{
  Check, ◌then_check◌, require, raw_kind, missing_dependencies, check_batch_task, check_batch,
  check_batches, check_call, validate_action_scope,
}

abbrev pub name_of : Action → String
name_of action = text_or action.next_action ""

-- A task of a batch that may be searched: it is open, a search, and depends on nothing.
pub record IsBatchable (remaining : List Task) (task : Task) : Type 0 where
  pub still_open : mem (task_id_of task) (map task_id_of remaining) ≡ true
  pub is_search : kind_of task ≡ "rag"
  pub depends_on_nothing : is_empty (dependencies_of task) ≡ true

-- The tool that the action names, if it names one, is the tool of the task, if that has one.
abbrev pub AgreesOnTool : Action → Task → Type 0
AgreesOnTool action task =
    (strip (text_or action.tool_name "") ≡ "")
    ⊎ ((tool_of task ≡ "") ⊎ (strip (text_or action.tool_name "") ≡ tool_of task))

-- A call that belongs to the approved plan. Its task is the one that the action names, which is
-- listed and open, or without a name the plan's default; what the task depends on is done, and it is
-- of the called kind. A tool call agrees with its task on the tool and has no batch; a search has a
-- batch of open searches only.
pub record IsApproved (kind : String) (action : Action) (task : Task)
    (remaining all_tasks : List Task) (completed_ids : List String) : Type 0 where
  pub chosen : task ≡ task_by_action all_tasks action
  pub listed : (wanted_id action ≡ "") ⊎ (mem (wanted_id action) (map task_id_of all_tasks) ≡ true)
  pub open_task :
      (wanted_id action ≡ "") ⊎ (mem (wanted_id action) (map task_id_of remaining) ≡ true)
  pub dependencies_done : is_empty (missing_dependencies task completed_ids) ≡ true
  pub same_kind : raw_kind task ≡ kind
  pub same_tool : kind ≡ "tool" → AgreesOnTool action task
  pub no_tool_batch : kind ≡ "tool" → is_empty action.batch_tasks ≡ true
  pub open_batch : All (IsBatchable remaining) action.batch_tasks

call-search : (name : String) → name ≡ "call_tool" → (name == "search_rag") ≡ false
call-search name same = ap (λ n. n == "search_rag") same

rag-tool : ◌≡◌ {A = String} "rag" "tool" → ⊥
rag-tool same = cc ((eq_iff "rag" "tool").1 same)

then_check-none : (a b : Check) → (a then_check b) ≡ none → (a ≡ none) × (b ≡ none)
then_check-none none b h = (refl, h)
then_check-none (some m) b h = cc

require-none : (b : Bool) (message : String) → require b message ≡ none → b ≡ true
require-none true message h = refl
require-none false message h = cc

module _ (action : Action) (remaining all_tasks : List Task) (completed_ids : List String) where
  abbrev the_task : Task
  the_task = task_by_action all_tasks action

  check_call-none :
      (name : String)
      → check_call name action remaining all_tasks completed_ids ≡ none
      → ((wanted_id action == "" || mem (wanted_id action) (map task_id_of all_tasks)) ≡ true)
        × (is_empty (missing_dependencies the_task completed_ids) ≡ true)
        × ((wanted_id action == "" || mem (wanted_id action) (map task_id_of remaining)) ≡ true)
        × (check_batches name (map task_id_of remaining) action.batch_tasks ≡ none)
        × ((not (name == "call_tool") || raw_kind the_task == "tool") ≡ true)
        × ((not (name == "search_rag") || raw_kind the_task == "rag") ≡ true)
        × ((not (name == "call_tool")
              || strip (text_or action.tool_name "") == ""
              || tool_of the_task == ""
              || strip (text_or action.tool_name "") == tool_of the_task)
            ≡ true)
  unfolding check_call tool_of
  check_call-none name h =
      let (a, h) = then_check-none (require _ _) _ h in
      let (b, h) = then_check-none (require _ _) _ h in
      let (c, h) = then_check-none (require _ _) _ h in
      let (d, h) = then_check-none (check_batches _ _ _) _ h in
      let (e, h) = then_check-none (require _ _) _ h in
      let (f, h) = then_check-none (require _ _) _ h in
      (
        require-none _ _ a,
        require-none _ _ b,
        require-none _ _ c,
        d,
        require-none _ _ e,
        require-none _ _ f,
        require-none _ _ h,
      )

  -- The batch that passes a check holds open searches only, and a tool call has none.
  batch_approved :
      (batch : List Task)
      → check_batch (map task_id_of remaining) batch ≡ none
      → All (IsBatchable remaining) batch
  unfolding check_batch check_batch_task
  batch_approved [] h = tt
  batch_approved (task ∷ batch) h =
      let (a, h) = then_check-none (check_batch_task (map task_id_of remaining) task) _ h in
      let (b, a) = then_check-none (require _ _) _ a in
      let (c, d) = then_check-none (require _ _) _ a in
      (
        record {
          still_open = require-none _ _ b;
          is_search = (eq_iff _ _).0 (require-none _ _ c);
          depends_on_nothing = require-none _ _ d;
        },
        batch_approved batch h,
      )

  batches_approved :
      (name : String) (batch : List Task)
      → check_batches name (map task_id_of remaining) batch ≡ none
      → All (IsBatchable remaining) batch × ((is_empty batch || name == "search_rag") ≡ true)
  unfolding check_batches
  batches_approved name [] h = (tt, refl)
  batches_approved name (task ∷ batch) h =
      let (a, h) = then_check-none (require _ _) _ h in
      (batch_approved (task ∷ batch) h, require-none _ _ a)

  -- The two calls differ in what is left to show.
  approved :
      (name kind : String)
      → check_call name action remaining all_tasks completed_ids ≡ none
      → (raw_kind the_task == kind) ≡ true
      → (kind ≡ "tool" → name ≡ "call_tool")
      → IsApproved kind action the_task remaining all_tasks completed_ids
  approved name kind h same named =
      let (a, b, c, batches, _, _, tools) = check_call-none name h in
      let (batch, search_only) = batches_approved name action.batch_tasks batches in
      record {
        chosen = refl;
        listed = ground (arith, eq_iff (wanted_id action) "", a);
        open_task = ground (arith, eq_iff (wanted_id action) "", c);
        dependencies_done = b;
        same_kind = (eq_iff _ _).0 same;
        same_tool = λ t. ground (
          arith,
          tools,
          (eq_iff name "call_tool").1 (named t),
          eq_iff (strip (text_or action.tool_name "")) "",
          eq_iff (tool_of the_task) "",
          eq_iff (strip (text_or action.tool_name "")) (tool_of the_task),
        );
        no_tool_batch = λ t. ground (arith, search_only, call-search name (named t));
        open_batch = batch;
      }

  -- An action that passes the scope check and calls a tool is approved for a "tool" task.
  pub IsApproved-call :
      (name_of action == "call_tool") ≡ true
      → validate_action_scope action remaining all_tasks completed_ids ≡ none
      → IsApproved "tool" action the_task remaining all_tasks completed_ids
  unfolding validate_action_scope
  IsApproved-call name h =
      let same = (eq_iff (text_or action.next_action "") "call_tool").0 name in
      let passed : check_call "call_tool" action remaining all_tasks completed_ids ≡ none =
        rw (same, validate_action_scope) at h in
      approved "call_tool" "tool" passed (ground (arith, check_call-none "call_tool" passed))
        (λ t. refl)

  -- One that passes and searches is approved for a "rag" task.
  pub IsApproved-search :
      (name_of action == "search_rag") ≡ true
      → validate_action_scope action remaining all_tasks completed_ids ≡ none
      → IsApproved "rag" action the_task remaining all_tasks completed_ids
  unfolding validate_action_scope
  IsApproved-search name h =
      let same = (eq_iff (text_or action.next_action "") "search_rag").0 name in
      let passed : check_call "search_rag" action remaining all_tasks completed_ids ≡ none =
        rw (same, validate_action_scope) at h in
      approved "search_rag" "rag" passed (ground (arith, check_call-none "search_rag" passed))
        (λ t. absurd (rag-tool t))

  -- A proposal to finish passes exactly when no tool or search task is open.
  pub finish_allowed :
      name_of action ≡ "finish"
      → (validate_action_scope action remaining all_tasks completed_ids ≡ none)
        ↔ (is_empty (filter is_executable remaining) ≡ true)
  unfolding validate_action_scope
  finish_allowed name = rw (name, validate_action_scope) (ground arith)
