-- ===== src/Goals/Calendar.antt =====
-- What the status "completed" of src/mini_rag/orchestration/completion.py means for a goal that writes
-- the calendar.
use mini_enterprise_rag_agen.Common.{
  String, ◌≡◌, refl, ◌∙◌, Bool, true, false, ◌&&◌, not, Option, some, List, [], ◌∷◌, ◌==◌,
  if◌then◌else◌, strip, text_or, mem, filter, any, any-filter, is_empty-filter, is_empty, arith,
  Bool-cases, Option-cases, inl, inr, Dict, eq_iff, ap,
}
use mini_enterprise_rag_agen.Orchestration.React.{Task}
use mini_enterprise_rag_agen.Tools.Calendar.{Event, get_or}
use mini_enterprise_rag_agen.Planning.EventId.{is_unresolved_calendar_event_id}
use mini_enterprise_rag_agen.Goals.Check.{
  single_previous_calendar_event_id, TaskResult, Goal, PreviousContext, CompletionCheckResult,
  checked, clean_expected_result, calendar_results, write_success, calendar_delete_success,
  matches_expected, latest_calendar_query, after_query, check_open_update, check_open_delete,
  check_calendar_update, check_calendar_create, check_calendar_delete, check_goal_completion,
}
use mini_enterprise_rag_agen.Goals.Reaches.{
  is_calendar_result, reaches, any-same, write_success_lem, delete_success_lem,
}

abbrev pub is_completed : CompletionCheckResult → Bool
is_completed check = check.status == "completed"

open-after_query :
    (goal_type reason : String) (needs : Bool) (expected : Dict String) (build : String → Task)
    (events : List Event)
    → is_completed (after_query goal_type reason needs expected build events) ≡ false
unfolding after_query
open-after_query goal_type reason needs expected build [] = refl
open-after_query goal_type reason needs expected build (e ∷ []) =
    elim (Bool-cases (needs && is_empty expected)) [
      | inl vague ↦ rw (after_query, vague) refl
      | inr clear ↦
          elim (Bool-cases
            (is_unresolved_calendar_event_id (some (strip (get_or "event_id" "" e))))) [
              | inl unresolved ↦ rw (after_query, clear, unresolved) refl
              | inr resolved ↦ rw (after_query, clear, resolved) refl
            ]
    ]
open-after_query goal_type reason needs expected build (e ∷ (f ∷ events)) = refl

open_update :
    (results : List TaskResult) (previous : Option PreviousContext) (expected : Dict String)
    → is_completed (check_open_update results previous expected) ≡ false
unfolding check_open_update
open_update results previous expected = elim (Option-cases (latest_calendar_query results)) [
  | inl unasked ↦
      elim (Bool-cases
        (not (single_previous_calendar_event_id previous == "") && not (is_empty expected))) [
          | inl known ↦ rw (check_open_update, unasked, known) refl
          | inr unknown ↦ rw (check_open_update, unasked, unknown) refl
        ]
  | inr (events, asked) ↦ rw (check_open_update, asked) (open-after_query _ _ _ _ _ events)
]

open_delete :
    (results : List TaskResult) (previous : Option PreviousContext)
    → is_completed (check_open_delete results previous) ≡ false
unfolding check_open_delete
open_delete results previous = elim (Option-cases (latest_calendar_query results)) [
  | inl unasked ↦ elim (Bool-cases (not (single_previous_calendar_event_id previous == ""))) [
    | inl known ↦ rw (check_open_delete, unasked, known) refl
    | inr unknown ↦ rw (check_open_delete, unasked, unknown) refl
  ]
  | inr (events, asked) ↦ rw (check_open_delete, asked) (open-after_query _ _ _ _ _ events)
]

any-present :
    (q : TaskResult → Bool) (xs : List TaskResult)
    → (not (is_empty xs) && not (is_empty (filter q xs))) ≡ any q xs
unfolding any filter
any-present q [] = refl
any-present q (x ∷ xs) = ground (arith, is_empty-filter q (x ∷ xs))

any-nonempty :
    (p q : TaskResult → Bool) (xs : List TaskResult)
    → (not (is_empty xs) && not (is_empty (filter q xs)) && any p (filter q xs))
      ≡ any p (filter q xs)
unfolding any filter
any-nonempty p q [] = refl
any-nonempty p q (x ∷ xs) = if_nonempty (filter q (x ∷ xs))
  where
    if_nonempty : (ys : List TaskResult) → (not (is_empty ys) && any p ys) ≡ any p ys
    if_nonempty [] = refl
    if_nonempty (y ∷ ys) = refl

-- The three tests of a write, as one test of the results.
any_done :
    (action : String) (success matches : TaskResult → Bool) (results : List TaskResult)
    → (not (is_empty (calendar_results action results))
        && not (is_empty (filter success (calendar_results action results)))
        && any matches (filter success (calendar_results action results)))
      ≡ any (λ r. is_calendar_result action r && (success r && matches r)) results
unfolding calendar_results
any_done action success matches results =
    any-nonempty matches success _
    ∙ (any-filter matches success _ ∙ any-filter _ (is_calendar_result action) results)

-- A chain of tests that ends in "completed" where all pass.
three_tests :
    (a b c : Bool) (x y z w : CompletionCheckResult)
    → is_completed x ≡ false
    → is_completed y ≡ false
    → is_completed z ≡ true
    → is_completed w ≡ false
    → is_completed (if a then x else if b then y else if c then z else w) ≡ (not a && not b && c)
three_tests true b c x y z w hx hy hz hw = hx
three_tests false true c x y z w hx hy hz hw = hy
three_tests false false true x y z w hx hy hz hw = hz
three_tests false false false x y z w hx hy hz hw = hw

two_tests :
    (a b : Bool) (x y z : CompletionCheckResult)
    → is_completed x ≡ false
    → is_completed y ≡ false
    → is_completed z ≡ true
    → is_completed (if a then x else if b then y else z) ≡ (not a && not b)
two_tests true b x y z hx hy hz = hx
two_tests false true x y z hx hy hz = hy
two_tests false false x y z hx hy hz = hz

update_completed :
    (results : List TaskResult) (previous : Option PreviousContext) (goal : Goal)
    → is_completed (check_calendar_update results previous goal)
      ≡ any (reaches "calendar_update" goal) results
unfolding check_calendar_update reaches
update_completed results previous goal =
    let expected = clean_expected_result goal.expected_result in
    let fits = λ (r : TaskResult). matches_expected expected r.tool_result.event in
    let updates = calendar_results "update" results in
    let successful = filter (write_success "updated") updates in
    three_tests (is_empty updates) (is_empty successful) (any fits successful)
      (check_open_update results previous expected)
      (checked "failed" "calendar_update" "update_failed" expected)
      (checked "completed" "calendar_update" "updated_fields_match" expected)
      (checked "failed" "calendar_update" "updated_field_mismatch" expected)
      (open_update results previous expected) refl refl refl
    ∙ (any_done "update" (write_success "updated") fits results
        ∙ any-same _ _ results (λ r.
          ap (λ b. is_calendar_result "update" r && b) (write_success_lem "updated" goal r)))

create_completed :
    (results : List TaskResult) (goal : Goal)
    → is_completed (check_calendar_create results goal)
      ≡ any (reaches "calendar_create" goal) results
unfolding check_calendar_create reaches
create_completed results goal =
    let expected = clean_expected_result goal.expected_result in
    let fits = λ (r : TaskResult). matches_expected expected r.tool_result.event in
    let creates = calendar_results "create" results in
    let successful = filter (write_success "created") creates in
    three_tests (is_empty creates) (is_empty successful) (any fits successful)
      (checked "incomplete" "calendar_create" "no_create_result" expected)
      (checked "failed" "calendar_create" "create_failed" expected)
      (checked "completed" "calendar_create" "created_fields_match" expected)
      (checked "failed" "calendar_create" "created_field_mismatch" expected) refl refl refl refl
    ∙ (any_done "create" (write_success "created") fits results
        ∙ any-same _ _ results (λ r.
          ap (λ b. is_calendar_result "create" r && b) (write_success_lem "created" goal r)))

delete_completed :
    (results : List TaskResult) (previous : Option PreviousContext) (goal : Goal)
    → is_completed (check_calendar_delete results previous)
      ≡ any (reaches "calendar_delete" goal) results
unfolding check_calendar_delete reaches calendar_results
delete_completed results previous goal =
    let deletes = calendar_results "delete" results in
    two_tests (is_empty deletes) (is_empty (filter calendar_delete_success deletes))
      (check_open_delete results previous) (checked "failed" "calendar_delete" "delete_failed" [])
      (checked "completed" "calendar_delete" "deleted" []) (open_delete results previous) refl refl
    ∙ (any-present calendar_delete_success deletes
        ∙ (any-filter calendar_delete_success (is_calendar_result "delete") results
            ∙ any-same _ _ results
                (λ r. ap (λ b. is_calendar_result "delete" r && b) (delete_success_lem r))))

-- A goal that creates, updates or deletes in the calendar counts as completed exactly when some
-- result reaches it: a call of the calendar with this action, answered with the status of its
-- success and an event id that is no placeholder and of the form EVT-dddddddd-dddd, and, except for
-- a deletion, with an event that has each value the goal gives to a field of an event.
pub check_goal_completion-calendar :
    (results : List TaskResult) (previous : Option PreviousContext) (goal : Goal)
    → mem
        (strip (text_or goal.goal_type ""))
        ("calendar_update" ∷ "calendar_create" ∷ "calendar_delete" ∷ [])
      ≡ true
    → is_completed (check_goal_completion results previous goal)
      ≡ any (reaches (strip (text_or goal.goal_type "")) goal) results
unfolding check_goal_completion mem
check_goal_completion-calendar results previous goal named =
    let goal_type = strip (text_or goal.goal_type "") in
    elim (Bool-cases (goal_type == "calendar_update")) [
      | inl u ↦
          rw ((eq_iff goal_type "calendar_update").0 u, check_goal_completion)
            (update_completed results previous goal)
      | inr nu ↦ elim (Bool-cases (goal_type == "calendar_create")) [
        | inl c ↦
            rw ((eq_iff goal_type "calendar_create").0 c, check_goal_completion)
              (create_completed results goal)
        | inr nc ↦
            rw ((eq_iff goal_type "calendar_delete").0 (ground arith), check_goal_completion)
              (delete_completed results previous goal)
      ]
    ]
