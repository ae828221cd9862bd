-- ===== src/Execution/Examples.antt =====
-- Concrete runs of the tool executor: one tool that counts its calls, open to a finance user.
use mini_enterprise_rag_agen.Common.{
  ℕ, ◌+◌, ◌≡◌, refl, ◌⊎◌, none, some, [], ◌∷◌, lookup, insert, filter, mem, lower, strip, values,
  keys, sorted, to_set, filter_map, strip_prefix?,
}
use mini_enterprise_rag_agen.Security.Permissions.{
  RolePolicyMap, normalize_role, normalize_action, can_use_tool_action, get_allowed_tool_actions,
  role_actions, actions_of, policy_of, policy_actions, allowed_actions_from_role_policy,
  assert_tool_action_permission, tool_permissions,
}
use mini_enterprise_rag_agen.Execution.Executor.{
  value, RegisteredTool, ToolRegistry, ToolState, ToolCallbacks, has_tool, invoke, with_defaults,
  selected_name, action_of, keep_time, answer_of, record_call, after_payload, after_fetch,
  after_verify, fetch, handle, gated, execute_selected_tool,
}
use mini_enterprise_rag_agen.Execution.Executor.Gate.{IsPermittedCall, execute_selected_tool-world}
use mini_enterprise_rag_agen.Execution.Executor.Audit.{IsSettled, prior_events, gated-audit}

-- What runs the executor.
running : Unit {0}
unfolding normalize_role normalize_action can_use_tool_action get_allowed_tool_actions role_actions
    actions_of policy_of policy_actions allowed_actions_from_role_policy
    assert_tool_action_permission tool_permissions values mem lookup insert strip lower keys sorted
    to_set filter filter_map strip_prefix? has_tool invoke with_defaults selected_name action_of
    after_payload after_fetch after_verify fetch keep_time answer_of record_call handle gated
    execute_selected_tool
running = tt

abbrev counter : RegisteredTool ℕ
counter = record {
  name = "manage_company_calendar";
  risk_level = "low";
  func = λ w payload. (w + 1, value (("count", "1") ∷ []));
}

abbrev tools : ToolRegistry ℕ
tools = ("manage_company_calendar", counter) ∷ []

abbrev no_policies : RolePolicyMap
no_policies = none

abbrev callbacks : ToolCallbacks ℕ
callbacks = record {
  build_payload = λ s name role. (s, value (("action", "query") ∷ []));
  verify_tool_result = λ name payload result. value result;
  build_current_tool_context = λ name payload result. result;
  record_tool_task_result = λ s n. record s { rest = n };
  friendly_tool_error = λ name result role action. "error";
  friendly_tool_validation_error = λ name message. "invalid";
  friendly_permission_answer = λ role name action. "denied";
}

abbrev request : ToolState ℕ
request = record {
  role = some "Finance ";
  selected_tool = some "manage_company_calendar";
  required_tools = [];
  selected_action = none;
  tool_input = [];
  tool_result = [];
  tool_calls = [];
  observations = [];
  audit_events = [];
  route = none;
  intent = none;
  error = none;
  final_answer = none;
  time_context_payload = [];
  time_context_result = [];
  current_tool_context = [];
  trace_id = "t";
  rest = 7;
}

-- A query is called, a deletion is not.
called_once : (execute_selected_tool tools no_policies callbacks request 0).world ≡ 1
unfolding running
called_once = refl

not_called :
    (execute_selected_tool tools no_policies callbacks
      (record request { selected_action = some "delete" })
      0).world
    ≡ 0
unfolding running
not_called = refl

execute_selected_tool-world_example :
    ((execute_selected_tool tools no_policies callbacks request 0).world ≡ 0)
    ⊎ IsPermittedCall tools no_policies callbacks request 0
        (execute_selected_tool tools no_policies callbacks request 0).world
        (selected_name tools no_policies callbacks request)
execute_selected_tool-world_example =
    execute_selected_tool-world tools no_policies callbacks request 0

gated-audit_example :
    IsSettled
      (has_tool tools no_policies callbacks (selected_name tools no_policies callbacks request))
      no_policies
      (prior_events tools no_policies callbacks request)
      (selected_name tools no_policies callbacks request)
      (normalize_role request.role)
      (after_payload tools no_policies callbacks
        (normalize_role request.role)
        (selected_name tools no_policies callbacks request)
        0
        (callbacks.build_payload request
          (selected_name tools no_policies callbacks request)
          (normalize_role request.role))).raised
      (gated tools no_policies callbacks request 0)
unfolding running
gated-audit_example = gated-audit tools no_policies callbacks request 0 refl
