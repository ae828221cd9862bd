-- ===== src/Planning/Gates/Order.antt =====
-- The order of the gates of src/mini_rag/planning/gates.py: a forbidden calendar write and the
-- questions that are asked before.
use mini_enterprise_rag_agen.Common.{
  String, ◌≡◌, refl, ◌∙◌, ap, subst, Bool, true, false, Option, none, some, List, [], ◌∷◌, map,
  filter, ◌==◌, strip, lower, text_or, mem, any, all, is_some, arith, Bool-cases, Option-cases, inl,
  inr, lookup, eq_iff,
}
use mini_enterprise_rag_agen.Security.Permissions.{
  RolePolicyMap, normalize_role, normalize_action, role_actions, actions_of,
  get_allowed_tool_actions, allowed_actions_from_role_policy,
}
use mini_enterprise_rag_agen.Orchestration.React.{Task, tool_of}
use mini_enterprise_rag_agen.Execution.Executor.{ToolRegistry}
use mini_enterprise_rag_agen.Planning.Tools.{
  is_registered, allowed_actions, requested_action, is_disallowed, first_disallowed_tool_task,
}
use mini_enterprise_rag_agen.Planning.Calendar.{
  PlanTask, GatePayload, task_of, raw_action, is_calendar_tool, is_target_write, is_outside,
  has_forbidden_write, target_writes, calendar_write_needs_clarification,
}
use mini_enterprise_rag_agen.Planning.Gates.{
  GateState, permission_decision, calendar_write_ability_question_requires_confirmation,
  evaluate_capability_gates,
}

-- Names that `lower` leaves as they are.
abbrev is_lowered : List String → Bool
is_lowered names = all (λ a. lower a == a) names

map-lower : (names : List String) → is_lowered names ≡ true → map lower names ≡ names
unfolding all
map-lower [] h = refl
map-lower (a ∷ names) h =
    rw (map-lower names (ground arith))
      (ap (λ x. x ∷ names) ((eq_iff (lower a) a).0 (ground arith)))

all-filter : (p q : String → Bool) (xs : List String) → all p xs ≡ true → all p (filter q xs) ≡ true
unfolding all filter
all-filter p q [] h = refl
all-filter p q (x ∷ xs) h = ground (arith, all-filter p q xs)

role_actions-lowered :
    (role : String) → is_lowered (role_actions role (actions_of "manage_company_calendar")) ≡ true
unfolding all role_actions actions_of lookup lower
role_actions-lowered role = ground arith

allowed-lowered :
    (role : String) (policies : RolePolicyMap)
    → is_lowered (get_allowed_tool_actions (some role) "manage_company_calendar" policies) ≡ true
unfolding get_allowed_tool_actions
allowed-lowered role policies =
    elim (Option-cases (
      allowed_actions_from_role_policy (normalize_role (some role)) "manage_company_calendar"
        policies)) [
          | inl free ↦
              rw (get_allowed_tool_actions, free)
                (role_actions-lowered (normalize_role (some role)))
          | inr (ps, bound) ↦
              rw (get_allowed_tool_actions, bound)
                (all-filter _ _ _ (role_actions-lowered (normalize_role (some role))))
        ]

lowered-empty : (x : String) → mem x target_writes ≡ true → (x == "") ≡ false
unfolding mem
lowered-empty x h = elim (Bool-cases (x == "")) [
  | inr proper ↦ proper
  | inl empty ↦
      let h' : mem "" target_writes ≡ true =
        subst (λ y. mem y target_writes ≡ true) ((eq_iff x "").0 empty) h in
      cc
]

false_is_true : ◌≡◌ {A = Bool} false true → ⊥
false_is_true e = cc

-- A text that normalises to a write is not empty.
strip-empty : (s : String) → mem (lower (strip s)) target_writes ≡ true → (s == "") ≡ false
unfolding mem lower strip
strip-empty s h = elim (Bool-cases (s == "")) [
  | inr proper ↦ proper
  | inl empty ↦
      let h' : mem (lower (strip "")) target_writes ≡ true =
        subst (λ x. mem (lower (strip x)) target_writes ≡ true) ((eq_iff s "").0 empty) h in
      cc
]

normalize-write :
    (s : String)
    → mem (lower (strip s)) target_writes ≡ true
    → normalize_action (some s) ≡ lower (strip s)
unfolding normalize_action
normalize-write s h = rw (normalize_action, strip-empty s h, lowered-empty (lower (strip s)) h) refl

-- The second choice of `or` does not matter where the first is there.
text_or-default :
    (a : Option String) (x y : String)
    → (text_or a x == "") ≡ false
    → (x == "") ≡ true
    → text_or a y ≡ text_or a x
text_or-default none x y h e = ground arith
text_or-default (some z) x y h e = ground (arith, eq_iff z "", eq_iff x "")

tool_of-calendar :
    (t : PlanTask) → is_calendar_tool t ≡ true → tool_of (task_of t) ≡ "manage_company_calendar"
unfolding is_calendar_tool tool_of strip
tool_of-calendar t h =
    let named : text_or (task_of t).tool "" ≡ "manage_company_calendar" =
      (eq_iff (text_or (task_of t).tool "") "manage_company_calendar").0 (ground arith) in
    ap strip (text_or-default (task_of t).tool "" _ (ap (λ x. x == "") named) refl ∙ named)

module _ {W : Type 0} (registry : ToolRegistry W) (policies : RolePolicyMap) where
  abbrev pub calendar_allowed : String → List String
  calendar_allowed role = allowed_actions registry policies "manage_company_calendar" role

  map-lower-allowed : (role : String) → map lower (calendar_allowed role) ≡ calendar_allowed role
  unfolding allowed_actions
  map-lower-allowed role =
      elim (Bool-cases (is_registered registry policies "manage_company_calendar")) [
        | inl there ↦ rw (allowed_actions, there) (map-lower _ (allowed-lowered role policies))
        | inr missing ↦ rw (allowed_actions, missing) refl
      ]

  first_disallowed-any :
      (tasks : List Task) (role : String)
      → any (is_disallowed registry policies role) tasks ≡ true
      → is_some (first_disallowed_tool_task registry policies tasks role) ≡ true
  unfolding first_disallowed_tool_task any
  first_disallowed-any [] role h = ground arith
  first_disallowed-any (task ∷ tasks) role h = ground (arith, first_disallowed-any tasks role)

  -- A task whose raw action is there asks for just that action.
  requested-raw :
      (t : PlanTask)
      → (raw_action t == "") ≡ false
      → requested_action registry policies (task_of t) ≡ raw_action t
  unfolding requested_action
  requested-raw t h = ground (arith, eq_iff (raw_action t) "")

  -- A write that the allowed actions leave out is stopped by the gate on tool tasks.
  forbidden-is_disallowed :
      (role : String) (t : PlanTask)
      → is_calendar_tool t ≡ true
      → mem (lower (strip (raw_action t))) target_writes ≡ true
      → is_outside (calendar_allowed role) (lower (strip (raw_action t))) ≡ true
      → is_disallowed registry policies role (task_of t) ≡ true
  unfolding is_disallowed is_calendar_tool
  forbidden-is_disallowed role t calendar write outside =
      rw
        (
          is_disallowed,
          tool_of-calendar t calendar,
          requested-raw t (strip-empty (raw_action t) write),
          normalize-write (raw_action t) write,
        )
        (ground arith)

  any-disallowed :
      (role : String) (tasks : List PlanTask)
      → has_forbidden_write (calendar_allowed role) (filter is_target_write tasks) ≡ true
      → any (is_disallowed registry policies role) (map task_of tasks) ≡ true
  unfolding any filter has_forbidden_write is_target_write
  any-disallowed role [] h = h
  any-disallowed role (t ∷ tasks) h =
      ground (arith, any-disallowed role tasks, forbidden-is_disallowed role t)

  clarification-forbidden :
      (payload : GatePayload) (tasks : List PlanTask) (previous : Bool) (role : String)
      → has_forbidden_write (calendar_allowed role) (filter is_target_write tasks) ≡ true
      → calendar_write_needs_clarification payload tasks previous (calendar_allowed role) ≡ false
  unfolding calendar_write_needs_clarification
  clarification-forbidden payload tasks previous role forbidden =
      rw (calendar_write_needs_clarification, map-lower-allowed role, forbidden) (ground arith)

  -- A plan with an update or deletion of the calendar that the role's allowed actions leave out is
  -- refused for lack of permission, and neither asked about nor passed, unless it is put as an
  -- ability question.
  pub evaluate_capability_gates-forbidden :
      (payload : GatePayload) (tasks : List PlanTask) (role : String) (state : GateState)
      → calendar_write_ability_question_requires_confirmation payload tasks state ≡ false
      → has_forbidden_write (calendar_allowed role) (filter is_target_write tasks) ≡ true
      → (task : Task) × (evaluate_capability_gates registry policies payload tasks role state
          ≡ some (permission_decision task))
  unfolding evaluate_capability_gates
  evaluate_capability_gates-forbidden payload tasks role state question forbidden =
      let stopped =
        first_disallowed-any (map task_of tasks) role (any-disallowed role tasks forbidden) in
      elim (Option-cases (first_disallowed_tool_task registry policies (map task_of tasks) role)) [
        | inl none_found ↦ absurd (false_is_true (rw none_found at stopped))
        | inr (task, found) ↦ (
          task,
          rw
              (
                evaluate_capability_gates,
                question,
                clarification-forbidden payload tasks state.has_previous_events role forbidden,
                found,
              )
              refl,
        )
      ]
