-- ===== src/Goals/Reaches.antt =====
-- Task results of the calendar that reach a goal, told apart from the tests by which
-- src/mini_rag/orchestration/completion.py finds them.
use mini_enterprise_rag_agen.Common.{
  String, ◌≡◌, refl, Bool, false, ◌&&◌, not, some, List, [], ◌∷◌, ◌==◌, if◌then◌else◌, strip, lower,
  text_or, mem, filter, any, arith, Bool-cases, inl, inr, Dict, eq_iff, sym, ap, all, lookup,
  full_match, ◌||◌,
}
use mini_enterprise_rag_agen.Tools.Calendar.{Event, get_or, update_fields}
use mini_enterprise_rag_agen.Planning.EventId.{is_unresolved_calendar_event_id, resolved_shape}
use mini_enterprise_rag_agen.Goals.Check.{
  TaskResult, Goal, is_text, clean_expected_result, write_success, calendar_delete_success,
  matches_expected,
}

-- The result of a calendar call of this action.
abbrev pub is_calendar_result : String → TaskResult → Bool
is_calendar_result action r =
    is_text r.tool_name "manage_company_calendar" && lower (text_or r.action "") == action

-- No placeholder, and of the shape of the calendar's ids.
unfoldable pub is_real_id : String → Bool
is_real_id event_id =
    not (is_unresolved_calendar_event_id (some event_id))
    && full_match "EVT-dddddddd-dddd" (strip event_id)

-- Each field of an event to which the goal gives a value has this value in the event.
unfoldable pub has_expected : Dict String → Event → Bool
has_expected expected event =
    all
      (λ (kv : String × String).
        not (mem kv.0 update_fields) || kv.1 == "" || kv.1 == get_or kv.0 "" event)
      expected

abbrev pub status_of : TaskResult → String
status_of r = lower (text_or r.tool_result.status "")

-- The id that a creation or an update tells: the event's, or else the answer's.
abbrev pub written_id : TaskResult → String
written_id r = text_or (lookup "event_id" r.tool_result.event) (text_or r.tool_result.event_id "")

-- The id that a deletion tells: the answer's, or else the result's, or else the one asked for.
abbrev pub deleted_id : TaskResult → String
deleted_id r =
    text_or r.tool_result.event_id (text_or r.event_id (get_or "event_id" "" r.tool_input))

-- The result reaches the goal: a call of the calendar with the goal's action, answered with the
-- status of a success and a real event id, and for an update or a creation with an event that has
-- the goal's values.
unfoldable pub reaches : String → Goal → TaskResult → Bool
reaches goal_type goal r =
    let fields = has_expected goal.expected_result r.tool_result.event in
    if goal_type == "calendar_update"
    then is_calendar_result "update" r
      && (status_of r == "updated" && is_real_id (written_id r) && fields)
    else if goal_type == "calendar_create"
    then is_calendar_result "create" r
      && (status_of r == "created" && is_real_id (written_id r) && fields)
    else is_calendar_result "delete" r && (status_of r == "deleted" && is_real_id (deleted_id r))

is_real_id_lem :
    (event_id : String)
    → not (is_unresolved_calendar_event_id (some event_id)) ≡ is_real_id event_id
unfolding is_real_id
is_real_id_lem event_id = ground (
  arith,
  resolved_shape (some event_id),
  ap (λ (x : String). full_match "EVT-dddddddd-dddd" (strip x)) (text_or_some event_id),
)
  where
    text_or_some : (x : String) → text_or (some x) "" ≡ x
    text_or_some x = elim (Bool-cases (x == "")) [
      | inl empty ↦ rw empty (sym ((eq_iff x "").0 empty))
      | inr full ↦ rw full refl
    ]

date_expression_is_no_field : mem "date_expression" update_fields ≡ false
unfolding mem
date_expression_is_no_field = refl

-- The cleaned fields, compared one by one.
pub has_expected_lem :
    (expected : Dict String) (event : Event)
    → matches_expected (clean_expected_result expected) event ≡ has_expected expected event
unfolding matches_expected clean_expected_result has_expected filter all
has_expected_lem [] event = refl
has_expected_lem ((field, value) ∷ expected) event = ground (
  arith,
  has_expected_lem expected event,
  date_expression_is_no_field,
  eq_iff field "date_expression",
  ap (λ (x : String). mem x update_fields),
)

pub any-same :
    (p q : TaskResult → Bool) (results : List TaskResult)
    → ((r : TaskResult) → p r ≡ q r)
    → any p results ≡ any q results
unfolding any
any-same p q [] h = refl
any-same p q (r ∷ results) h = rw (h r, any-same p q results h) refl

-- A write's tests, spelled out.
pub write_success_lem :
    (status : String) (goal : Goal) (r : TaskResult)
    → (write_success status r
        && matches_expected (clean_expected_result goal.expected_result) r.tool_result.event)
      ≡ (status_of r == status
          && is_real_id (written_id r)
          && has_expected goal.expected_result r.tool_result.event)
unfolding write_success
write_success_lem status goal r =
    rw (is_real_id_lem (written_id r), has_expected_lem goal.expected_result r.tool_result.event)
      (ground arith)

pub delete_success_lem :
    (r : TaskResult)
    → calendar_delete_success r ≡ (status_of r == "deleted" && is_real_id (deleted_id r))
unfolding calendar_delete_success
delete_success_lem r = rw (is_real_id_lem (deleted_id r)) refl
