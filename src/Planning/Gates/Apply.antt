-- ===== src/Planning/Gates/Apply.antt =====
-- `apply_capability_gates` and `CapabilityGateDecision.apply` of src/mini_rag/planning/gates.py: a
-- decision replaces the plan of the payload.
use mini_enterprise_rag_agen.Common.{String, Option, none, some, List, [], ◌∷◌, ◌==◌, if◌then◌else◌}
use mini_enterprise_rag_agen.Security.Permissions.{RolePolicyMap}
use mini_enterprise_rag_agen.Execution.Executor.{ToolRegistry}
use mini_enterprise_rag_agen.Planning.Attendance.{ValidationIssue}
use mini_enterprise_rag_agen.Planning.Calendar.{PlanTask, GatePayload}
use mini_enterprise_rag_agen.Planning.Gates.{
  GateState, CapabilityGateDecision, evaluate_capability_gates,
}

-- The payload of the planner: the keys that the gates read, and those that a decision sets.
pub record PlannerPayload : Type 0 where
  pub gate : GatePayload
  pub route : Option String
  pub intent : Option String
  pub topic : Option String
  pub normalization_reason : Option String
  pub required_tools : List String
  pub tasks : List PlanTask
  pub strategy : String
  pub validation_status : Option String
  pub validation_issues : List ValidationIssue
  pub missing_required_slots : List String

abbrev non_empty_or : {A : Type 0} → List A → List A → List A
non_empty_or [] ys = ys
non_empty_or (x ∷ xs) ys = x ∷ xs

abbrev set_status : Option String → Option String → Option String
set_status none old = old
set_status (some status) old = if status == "" then old else some status

unfoldable pub apply : CapabilityGateDecision → PlannerPayload → PlannerPayload
apply decision payload = record payload {
  gate = record (payload.gate) {
    selected_tool = none;
    selected_action = none;
    tool_input = some [];
  };
  route = some decision.route;
  intent = some decision.intent;
  topic = some decision.topic;
  normalization_reason = some decision.normalization_reason;
  required_tools = [];
  tasks = [];
  strategy = "";
  validation_status = set_status decision.validation_status payload.validation_status;
  validation_issues = non_empty_or decision.validation_issues payload.validation_issues;
  missing_required_slots =
      non_empty_or decision.missing_required_slots payload.missing_required_slots;
}

module _ {W : Type 0} (registry : ToolRegistry W) (policies : RolePolicyMap) where
  unfoldable pub apply_capability_gates :
      PlannerPayload → List PlanTask → String → GateState → Option PlannerPayload
  apply_capability_gates payload tasks role state =
      elim (evaluate_capability_gates registry policies payload.gate tasks role state) [
        | none ↦ none
        | some decision ↦ some (apply decision payload)
      ]
