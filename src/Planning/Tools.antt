-- ===== src/Planning/Tools.antt =====
-- `first_disallowed_tool_task` of src/mini_rag/planning/gates.py, with `allowed_actions` of the tool
-- registry in src/mini_rag/tools/registry.py, against the permission check of the executor.
use mini_enterprise_rag_agen.Common.{
  String, ◌≡◌, refl, Bool, ◌&&◌, ◌||◌, not, Option, none, some, List, [], ◌∷◌, ◌==◌, if◌then◌else◌,
  text_or, arith, Bool-cases, inl, inr, is_some, mem, all, lookup,
}
use mini_enterprise_rag_agen.Security.Permissions.{
  RolePolicyMap, normalize_action, get_allowed_tool_actions, can_use_tool_action,
}
use mini_enterprise_rag_agen.Orchestration.React.{Task, kind_of, tool_of, input_action}
use mini_enterprise_rag_agen.Execution.Executor.{ToolRegistry}

module _ {W : Type 0} (registry : ToolRegistry W) (policies : RolePolicyMap) where
  unfoldable pub is_registered : String → Bool
  is_registered name = not (name == "") && is_some (lookup name registry)

  unfoldable pub allowed_actions : String → String → List String
  allowed_actions name role =
      if is_registered name then get_allowed_tool_actions (some role) name policies else []

  -- `str(task.get("action") or tool_input.get("action") or "*")`.
  unfoldable pub requested_action : Task → String
  requested_action task = text_or task.action (text_or (input_action task.tool_input) "*")

  -- The task is returned by the loop.
  unfoldable pub is_disallowed : String → Task → Bool
  is_disallowed role task =
      let tool = tool_of task in
      let action = normalize_action (some (requested_action task)) in
      let allowed = allowed_actions tool role in
      kind_of task == "tool"
      && (tool == ""
          || not (is_registered tool)
          || (not (mem "*" allowed) && not (mem action allowed)))

  unfoldable pub first_disallowed_tool_task : List Task → String → Option Task
  first_disallowed_tool_task [] role = none
  first_disallowed_tool_task (task ∷ tasks) role =
      let rest = first_disallowed_tool_task tasks role in
      if is_disallowed role task then some task else rest

  -- A tool task of a registered tool whose action the executor's check grants, or no tool task.
  unfoldable pub is_permitted : String → Task → Bool
  is_permitted role task =
      not (kind_of task == "tool")
      || (is_registered (tool_of task)
          && can_use_tool_action (some role) (tool_of task) (some (requested_action task)) policies)

  is_disallowed_lem :
      (role : String) (task : Task) → is_disallowed role task ≡ not (is_permitted role task)
  unfolding is_disallowed is_permitted allowed_actions is_registered can_use_tool_action
  is_disallowed_lem role task = ground arith

  -- A plan passes the gate exactly when each of its tool tasks names a registered tool and an action
  -- that the permission check grants to the role.
  pub first_disallowed_tool_task-permitted :
      (tasks : List Task) (role : String)
      → not (is_some (first_disallowed_tool_task tasks role)) ≡ all (is_permitted role) tasks
  unfolding first_disallowed_tool_task all
  first_disallowed_tool_task-permitted [] role = refl
  first_disallowed_tool_task-permitted (task ∷ tasks) role =
      elim (Bool-cases (is_permitted role task)) [
        | inl fine ↦
            rw (first_disallowed_tool_task, is_disallowed_lem role task, fine)
              (first_disallowed_tool_task-permitted tasks role)
        | inr bad ↦ rw (first_disallowed_tool_task, is_disallowed_lem role task, bad) refl
      ]
