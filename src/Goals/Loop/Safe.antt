-- ===== src/Goals/Loop/Safe.antt =====
-- What `validate_safe_react_task` of src/mini_rag/orchestration/goal_react.py lets through.
use mini_enterprise_rag_agen.Common.{
  String, ◌≡◌, refl, Bool, true, ◌&&◌, ◌||◌, not, none, some, List, [], ◌∷◌, ◌==◌, strip, lower,
  text_or, mem, all, is_some, Dict, lookup, arith, Bool-cases, inl, inr, eq_iff,
}
use mini_enterprise_rag_agen.Security.Permissions.{
  normalize_role, normalize_action, can_use_tool_action,
}
use mini_enterprise_rag_agen.Orchestration.React.{Task, AgentState, tool_of, either, input_action}
use mini_enterprise_rag_agen.Planning.Tools.{is_registered, allowed_actions}
use mini_enterprise_rag_agen.Planning.EventId.{is_unresolved_calendar_event_id}
use mini_enterprise_rag_agen.Goals.Loop.{
  GoalKeys, Nodes, unresolved_date, capability_issue, validate_safe_react_task,
}

abbrev pub write_names : List String
write_names = "update" ∷ "delete" ∷ []

normalize-lowered :
    (action : String) → mem action write_names ≡ true → normalize_action (some action) ≡ action
unfolding mem normalize_action lower strip
normalize-lowered action h = elim (Bool-cases (action == "update")) [
  | inl u ↦ rw ((eq_iff action "update").0 u) refl
  | inr nu ↦ rw ((eq_iff action "delete").0 (ground arith)) refl
]

module _ {W Y : Type 0} (nodes : Nodes W Y) where
  abbrev pub is_iso_or_unset : Dict String → String → Bool
  is_iso_or_unset input field =
      strip (text_or (lookup field input) "") == ""
      || nodes.is_iso_date (strip (text_or (lookup field input) ""))

  unresolved_date-all :
      (input : Dict String) (fields : List String)
      → is_some (unresolved_date nodes input fields) ≡ not (all (is_iso_or_unset input) fields)
  unfolding unresolved_date all
  unresolved_date-all input [] = refl
  unresolved_date-all input (f ∷ fields) = ground (arith, unresolved_date-all input fields)

  abbrev pub action_of : Task → String
  action_of task = lower (strip (either task.action (input_action task.tool_input)))

  abbrev pub input_or_empty : Task → Dict String
  input_or_empty task = elim task.tool_input [ none ↦ [] | some d ↦ d ]

  -- The executor's permission check grants the action of the registered tool.
  abbrev pub is_granted : AgentState (GoalKeys Y) → Task → Bool
  is_granted state task =
      is_registered nodes.tool_registry (nodes.get_role_policies state) (tool_of task)
      && can_use_tool_action (some (normalize_role state.rest.role)) (tool_of task)
          (some (action_of task)) (nodes.get_role_policies state)

  -- A granted update or deletion of one real event, with dates that are ISO dates if it is an update.
  pub is_safe_write : AgentState (GoalKeys Y) → Task → Bool
  is_safe_write state task =
      tool_of task == "manage_company_calendar"
      && mem (action_of task) write_names
      && is_granted state task
      && not (is_unresolved_calendar_event_id (lookup "event_id" (input_or_empty task)))
      && (not (action_of task == "update")
          || all (is_iso_or_unset (input_or_empty task)) ("date" ∷ "start_date" ∷ "end_date" ∷ []))

  allowed-granted :
      (state : AgentState (GoalKeys Y)) (task : Task)
      → mem (action_of task) write_names ≡ true
      → (let allowed =
            allowed_actions nodes.tool_registry
              (nodes.get_role_policies state)
              (tool_of task)
              (normalize_role state.rest.role) in
          not (mem "*" allowed) && not (mem (action_of task) allowed))
        ≡ not (is_granted state task)
  unfolding allowed_actions can_use_tool_action mem
  allowed-granted state task write =
      elim (Bool-cases
        (is_registered nodes.tool_registry (nodes.get_role_policies state) (tool_of task))) [
          | inl there ↦
              rw (normalize-lowered (action_of task) write, allowed_actions, there) (ground arith)
          | inr missing ↦ rw (allowed_actions, missing) refl
        ]

  -- A next action is let through exactly when it is a granted update or deletion of one real event,
  -- for an update with ISO dates only, and the capability gates pass the executable tasks.
  pub validate_safe_react_task-safe :
      (state : AgentState (GoalKeys Y)) (task : Task)
      → not (is_some (validate_safe_react_task nodes state task)) ≡ (
          is_safe_write state task
          && not (
              is_some (
                capability_issue nodes state
                  (tool_of task)
                  (action_of task)
                  (some (input_or_empty task)))))
  unfolding validate_safe_react_task is_safe_write
  validate_safe_react_task-safe state task = ground (
    arith,
    allowed-granted state task,
    unresolved_date-all (input_or_empty task) ("date" ∷ "start_date" ∷ "end_date" ∷ []),
  )
