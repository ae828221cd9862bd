-- ===== src/Orchestration/React/Guard.antt =====
-- `_validate_action_scope`, `_action_signature` and `_is_duplicate_read_action` of
-- src/mini_rag/orchestration/react_executor.py.
use mini_enterprise_rag_agen.Common.{
  String, Bool, true, false, ◌&&◌, ◌||◌, not, Option, none, some, List, [], ◌∷◌, map, ◌==◌,
  if◌then◌else◌, strip, lower, text_or, mem, filter, is_empty, Dict, ◌+++◌,
}
use mini_enterprise_rag_agen.Orchestration.React.{
  Task, Action, task_id_of, kind_of, input_action, dependencies_of, is_executable, either,
  task_by_action, wanted_id, query_of,
}

-- `sep.join(texts)`.
unfoldable pub join : String → List String → String
join sep [] = ""
join sep (x ∷ []) = x
join sep (x ∷ (y ∷ ys)) = x +++ sep +++ join sep (y ∷ ys)

-- A check that passes is `none`, a violation is its message.
abbrev pub Check : Type 0
Check = Option String

-- The checks are made in order, and the first violation is raised.
infixr 20 ◌then_check◌
abbrev pub ◌then_check◌ : Check → Check → Check
none then_check later = later
some message then_check later = some message

abbrev pub require : Bool → String → Check
require true message = none
require false message = some message

unfoldable pub check_batch_task : List String → Task → Check
check_batch_task remaining_ids task =
    require (mem (task_id_of task) remaining_ids)
      ("batch task outside remaining plan: " +++ task_id_of task)
    then_check (require (kind_of task == "rag") "batch execution only supports rag tasks"
        then_check (require (is_empty (dependencies_of task))
            ("batch task has dependencies: " +++ task_id_of task)))

unfoldable pub check_batch : List String → List Task → Check
check_batch remaining_ids [] = none
check_batch remaining_ids (task ∷ others) =
    check_batch_task remaining_ids task then_check check_batch remaining_ids others

unfoldable pub check_batches : String → List String → List Task → Check
check_batches name remaining_ids [] = none
check_batches name remaining_ids (task ∷ others) =
    require (name == "search_rag") "batch execution only supports search_rag"
    then_check check_batch remaining_ids (task ∷ others)

abbrev pub missing_dependencies : Task → List String → List String
missing_dependencies task completed_ids =
    filter (λ dep. not (mem dep completed_ids)) (dependencies_of task)

-- `str(task.get("kind") or "")`, not lower-cased here.
abbrev pub raw_kind : Task → String
raw_kind task = text_or task.kind ""

-- The checks on an action that calls a tool or searches.
unfoldable pub check_call : String → Action → List Task → List Task → List String → Check
check_call name action remaining all_tasks completed_ids =
    let task_id = wanted_id action in
    let task = task_by_action all_tasks action in
    let remaining_ids = map task_id_of remaining in
    let proposed_tool = strip (text_or action.tool_name "") in
    let approved_tool = strip (either task.tool task.tool_name) in
    require (task_id == "" || mem task_id (map task_id_of all_tasks))
      ("action task_id outside approved plan: " +++ task_id)
    then_check (require (is_empty (missing_dependencies task completed_ids)) (
          "depends_on not completed for task "
          +++ task_id
          +++ ": "
          +++ join ", " (missing_dependencies task completed_ids))
        then_check (require (task_id == "" || mem task_id remaining_ids)
              ("action repeats completed task: " +++ task_id)
            then_check (check_batches name remaining_ids action.batch_tasks
                then_check (require (not (name == "call_tool") || raw_kind task == "tool")
                      "call_tool action is not approved for this task"
                    then_check (require (not (name == "search_rag") || raw_kind task == "rag")
                          "search_rag action is not approved for this task"
                        then_check (require
                            (not (name == "call_tool")
                              || proposed_tool == ""
                              || approved_tool == ""
                              || proposed_tool == approved_tool)
                            ("tool outside approved task: " +++ proposed_tool)))))))

unfoldable pub validate_action_scope : Action → List Task → List Task → List String → Check
validate_action_scope action remaining all_tasks completed_ids =
    let name = text_or action.next_action "" in
    if name == "ask_clarification"
    then none
    else if name == "finish"
    then require (is_empty (filter is_executable remaining))
        "finish blocked: remaining executable tasks exist"
    else check_call name action remaining all_tasks completed_ids

-- The input that a tool call is made with: the action's if it has one, else the task's.
abbrev pub input_of : Action → Task → Option (Dict String)
input_of action task = elim action.tool_input [ none ↦ task.tool_input | some d ↦ some d ]

abbrev input_or_empty : Option (Dict String) → Dict String
input_or_empty none = []
input_or_empty (some d) = d

-- `dumps` is the canonical JSON text of a dict.
unfoldable pub action_signature : (Dict String → String) → Action → Task → String
action_signature dumps action task =
    let kind = strip (text_or action.next_action "") in
    if kind == "search_rag" && not (is_empty action.batch_tasks)
    then "search_rag_batch:"
      +++ join "," (map (λ (t : Task). text_or t.task_id "") action.batch_tasks)
    else if kind == "call_tool"
    then "call_tool:"
      +++ strip (text_or action.tool_name (either task.tool task.tool_name))
      +++ ":"
      +++ dumps (input_or_empty (input_of action task))
    else if kind == "search_rag"
    then "search_rag:" +++ strip (text_or action.rag_query (query_of task))
    else kind

unfoldable pub is_duplicate_read_action : Action → Task → Bool
is_duplicate_read_action action task =
    let tool = strip (text_or action.tool_name (either task.tool task.tool_name)) in
    let action_name = lower (strip (either (input_action (input_of action task)) task.action)) in
    text_or action.next_action "" == "call_tool"
    && tool == "manage_company_calendar"
    && action_name == "query"
