-- ===== src/Goals/Loop.antt =====
-- `apply_goal_aware_completion` and its helpers, of src/mini_rag/orchestration/goal_react.py. The
-- state is the executor's with the keys of `GoalKeys`. The observations of this loop are a list of
-- their own, and the messages of the issues are left out.
pub mod Rounds
pub mod Success
pub mod Bounds
pub mod Safe
use mini_enterprise_rag_agen.Common.{
  ℕ, zero, suc, ◌+◌, String, Bool, true, false, ◌&&◌, ◌||◌, not, Option, none, some, List, [], ◌∷◌,
  ◌++◌, map, ◌==◌, ◌+++◌, if◌then◌else◌, strip, lower, text_or, mem, any, is_empty, is_some, length,
  Dict, lookup,
}
use mini_enterprise_rag_agen.Security.Permissions.{RolePolicyMap, normalize_role}
use mini_enterprise_rag_agen.Execution.Executor.{ToolRegistry}
use mini_enterprise_rag_agen.Orchestration.React.{
  Task, Step, ExecutionResult, AgentState, tool_of, either, input_action,
}
use mini_enterprise_rag_agen.Planning.Tools.{allowed_actions}
use mini_enterprise_rag_agen.Planning.EventId.{is_unresolved_calendar_event_id}
use mini_enterprise_rag_agen.Planning.Calendar.{PlanTask, GatePayload}
use mini_enterprise_rag_agen.Planning.Gates.{GateState, evaluate_capability_gates}
use mini_enterprise_rag_agen.Goals.Check.{
  TaskResult, Goal, PreviousContext, SafeNextAction, CompletionCheckResult, check_goal_completion,
}

pub record SafeIssue : Type 0 where
  pub code : String
  pub field : Option String

-- An entry of "completion_checks"; a key that is not set is `none` or false.
pub record CheckEntry : Type 0 where
  pub check : CompletionCheckResult
  pub iteration : Option ℕ
  pub safe_next_action_triggered : Bool
  pub safe_next_action_source : Option String
  pub error : Option SafeIssue
  pub max_steps_reached : Bool

pub data GoalObservation : Type 0 where
  completion_check : ℕ → CompletionCheckResult → Option String → GoalObservation
  blocked : SafeIssue → GoalObservation
  triggered : SafeNextAction → Task → GoalObservation

-- The keys that the executor does not know; an empty contract is `none`.
pub record GoalKeys (Y : Type 0) : Type 0 where
  pub goal_contract : Option Goal
  pub task_results : List TaskResult
  pub previous_tool_context : Option PreviousContext
  pub role : Option String
  pub question : Option String
  pub standalone_query : Option String
  pub completion_check : Option CheckEntry
  pub completion_checks : List CheckEntry
  pub goal_observations : List GoalObservation
  pub safe_next_action_triggered : Bool
  pub safe_next_action_source : Option String
  pub rest : Y

-- A step with the key "goal_react_iteration".
pub record GoalStep : Type 0 where
  pub step : Step
  pub goal_react_iteration : Option ℕ

pub record GoalResult : Type 0 where
  pub status : String
  pub steps : List GoalStep
  pub finish_reason : String

-- What the loop uses of `nodes`, and the keys of a task that the executor's record leaves out.
pub record Nodes (W Y : Type 0) : Type 0 where
  pub tool_registry : ToolRegistry W
  pub get_role_policies : AgentState (GoalKeys Y) → RolePolicyMap
  pub is_iso_date : String → Bool
  pub details : Task → PlanTask
  pub str : ℕ → String

abbrev pub no_goal : Goal
no_goal = record { goal_type = none; target = []; expected_result = [] }

abbrev pub entry_of : CompletionCheckResult → CheckEntry
entry_of check = record {
  check = check;
  iteration = none;
  safe_next_action_triggered = false;
  safe_next_action_source =
      some (if is_some check.safe_next_action then "deterministic" else "none");
  error = none;
  max_steps_reached = false;
}

abbrev pub plain_steps : List Step → List GoalStep
plain_steps steps = map (λ s. record { step = s; goal_react_iteration = none }) steps

-- The steps of a follow-up, numbered after the `count` steps before it.
unfoldable pub merged_steps : ℕ → ℕ → List Step → List GoalStep
merged_steps iteration count [] = []
merged_steps iteration count (s ∷ steps) =
    record { step = record s { step = count + 1 }; goal_react_iteration = some iteration }
    ∷ merged_steps iteration (count + 1) steps

abbrev operation : String → String
operation goal_type =
    if goal_type == "calendar_create"
    then "创建"
    else if goal_type == "calendar_delete"
    then "删除"
    else "更新"

abbrev mismatch_message : String → String
mismatch_message reason =
    if reason == "updated_field_mismatch"
    then "日程写操作返回结果与目标字段不一致，不能声称更新已完成。"
    else if reason == "created_field_mismatch"
    then "日程创建结果与目标字段不一致，不能声称创建已完成。"
    else if reason == "create_failed"
    then "日程创建工具没有返回成功创建结果，因此不能声称创建已完成。"
    else if reason == "delete_failed"
    then "日程删除工具没有返回成功删除结果，因此不能声称删除已完成。"
    else if reason == "missing_expected_result"
    then "已找到目标会议，但没有明确要修改的字段，因此不会自动执行更新。"
    else "用户目标尚未确认完成，因此不能声称操作已成功。"

unfoldable pub completion_user_message : CompletionCheckResult → String
completion_user_message check =
    if check.status == "needs_clarification"
    then (if check.reason == "multiple_candidates"
        then "匹配到多个日程，请指定要" +++ operation check.goal_type +++ "的具体会议 event_id 或标题后再继续。"
        else "目标还不够明确，需要补充信息后才能执行。")
    else if check.reason == "not_found"
    then "没有找到匹配的目标会议，因此没有执行" +++ operation check.goal_type +++ "。"
    else mismatch_message check.reason

abbrev pub issue_of : String → SafeIssue
issue_of code = record { code = code; field = none }

module _ {W Y : Type 0} (nodes : Nodes W Y) where
  -- The loop over the three date fields.
  unfoldable pub unresolved_date : Dict String → List String → Option SafeIssue
  unresolved_date tool_input [] = none
  unresolved_date tool_input (field ∷ fields) =
      let value = strip (text_or (lookup field tool_input) "") in
      if not (value == "") && not (nodes.is_iso_date value)
      then some (record { code = "unresolved_date"; field = some field })
      else unresolved_date tool_input fields

  unfoldable pub capability_issue :
      AgentState (GoalKeys Y) → String → String → Option (Dict String) → Option SafeIssue
  capability_issue state tool action tool_input =
      let payload : GatePayload = record {
        selected_tool = some tool;
        selected_action = some action;
        tool_input = tool_input;
        standalone_query = state.rest.standalone_query;
      } in
      let gate_state : GateState = record {
        question = state.rest.question;
        standalone_query = state.rest.standalone_query;
        has_previous_events = elim state.rest.previous_tool_context [
          | none ↦ false
          | some p ↦ not (is_empty p.events)
        ];
      } in
      elim (evaluate_capability_gates nodes.tool_registry (nodes.get_role_policies state) payload
        (map nodes.details state.executable_tasks) (normalize_role state.rest.role) gate_state) [
          | none ↦ none
          | some decision ↦ some (issue_of "capability_gate")
        ]

  unfoldable pub validate_safe_react_task : AgentState (GoalKeys Y) → Task → Option SafeIssue
  validate_safe_react_task state task =
      let tool = tool_of task in
      let action = lower (strip (either task.action (input_action task.tool_input))) in
      let allowed =
        allowed_actions nodes.tool_registry (nodes.get_role_policies state) tool
          (normalize_role state.rest.role) in
      let tool_input : Dict String = elim task.tool_input [ none ↦ [] | some d ↦ d ] in
      let dates : Option SafeIssue =
        if action == "update"
        then unresolved_date tool_input ("date" ∷ "start_date" ∷ "end_date" ∷ [])
        else none in
      if not (tool == "manage_company_calendar") || not (mem action ("update" ∷ "delete" ∷ []))
      then some (issue_of "unsupported_safe_next_action")
      else if not (mem "*" allowed) && not (mem action allowed)
      then some (issue_of "permission_denied")
      else if is_unresolved_calendar_event_id (lookup "event_id" tool_input)
      then some (issue_of "unresolved_event_id")
      else elim dates [
        | some issue ↦ some issue
        | none ↦ capability_issue state tool action (some tool_input)
      ]
