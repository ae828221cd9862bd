-- ===== src/Orchestration/React/Choice.antt =====
-- What `_coerce_action` of src/mini_rag/orchestration/react_executor.py yields.
use mini_enterprise_rag_agen.Common.{
  ◌≡◌, refl, true, Option, none, some, List, [], ◌∷◌, ◌==◌, strip, mem, or_else-nil, Bool-cases,
  inl, inr,
}
use mini_enterprise_rag_agen.Orchestration.React.{
  Task, Action, kind_of, either, fallback_action, coerce_action, action_names,
}
use mini_enterprise_rag_agen.Orchestration.React.Scope.{name_of}

fallback-name :
    (remaining : List Task) → mem (name_of (fallback_action remaining)) action_names ≡ true
unfolding fallback_action mem
fallback-name [] = refl
fallback-name (task ∷ others) = elim (Bool-cases (kind_of task == "tool")) [
  | inl t ↦ rw (t, fallback_action)
  | inr n ↦ elim (Bool-cases (kind_of task == "rag")) [
    | inl r ↦ rw (n, r, fallback_action)
    | inr o ↦ rw (n, o, fallback_action)
  ]
]

-- Whatever the callback proposes, the action that is checked has one of the four known names.
pub coerce-name :
    (a : Option Action) (remaining : List Task)
    → mem (name_of (coerce_action a remaining)) action_names ≡ true
unfolding coerce_action
coerce-name none remaining = fallback-name remaining
coerce-name (some a) remaining =
    elim (Bool-cases (mem (strip (either a.next_action a.action)) action_names)) [
      | inl known ↦ rw (known, coerce_action, or_else-nil) known
      | inr other ↦ rw (other, coerce_action) (fallback-name remaining)
    ]
