-- ===== src/Planning/Calendar/Contracts.antt =====
-- The tasks that src/mini_rag/capabilities/calendar/validator.py reads, with
-- `normalize_time_requirement` of src/mini_rag/capabilities/datetime/resolver.py.
use mini_enterprise_rag_agen.Common.{
  String, Bool, true, false, ◌&&◌, ◌||◌, not, Option, none, some, [], ◌∷◌, ◌==◌, if◌then◌else◌,
  strip, text_or, mem, is_some, full_match,
}
use mini_enterprise_rag_agen.Orchestration.React.{Task}
use mini_enterprise_rag_agen.Planning.Attendance.{AttendanceTask}

-- The key "time_requirement"; a missing one has no keys. `date_range` is the pair of its dates.
pub record TimeRequirement : Type 0 where
  pub time_expression : Option String
  pub absolute_date : Option String
  pub date : Option String
  pub date_range : Option (String × String)
  pub time_reference_type : Option String
  pub requires_current_datetime : Bool
  pub needs_current_datetime : Bool

pub record TimeContract : Type 0 where
  pub time_reference_type : String
  pub time_expression : String
  pub absolute_date : Option String
  pub date_range : Option (String × String)
  pub requires_current_datetime : Bool

-- `has_selector`: one of the keys "selector", "event_selector", "target", "match" of the tool input
-- is a dict.
pub record PlanTask : Type 0 where
  pub attendance : AttendanceTask
  pub time_requirement : TimeRequirement
  pub has_selector : Bool

abbrev pub task_of : PlanTask → Task
task_of t = t.attendance.task

unfoldable pub is_date_text : String → Bool
is_date_text s = full_match "dddd-dd-dd" s

abbrev keep_if : {A : Type 0} → Bool → A → Option A
keep_if true x = some x
keep_if false x = none

-- `date_range` where both dates have the shape.
unfoldable pub checked_range : Option (String × String) → Option (String × String)
checked_range none = none
checked_range (some (start, end)) =
    keep_if (is_date_text (strip start) && is_date_text (strip end)) (strip start, strip end)

unfoldable pub time_type_of : TimeRequirement → String → Option (String × String) → String → String
time_type_of value absolute_date date_range time_expression =
    let given = strip (text_or value.time_reference_type "") in
    let found =
      if not (given == "")
      then given
      else if is_some date_range
      then "range"
      else if not (absolute_date == "")
      then "absolute"
      else if not (time_expression == "")
      then "relative"
      else "none" in
    if mem found ("none" ∷ "relative" ∷ "absolute" ∷ "range" ∷ "ambiguous" ∷ [])
    then found
    else "none"

unfoldable pub normalize_time_requirement : TimeRequirement → TimeContract
normalize_time_requirement value =
    let time_expression = strip (text_or value.time_expression "") in
    let asked = strip (text_or value.absolute_date (text_or value.date "")) in
    let absolute_date = if is_date_text asked then asked else "" in
    let date_range = checked_range value.date_range in
    let time_type = time_type_of value absolute_date date_range time_expression in
    record {
      time_reference_type = time_type;
      time_expression = time_expression;
      absolute_date =
          if time_type == "absolute" && not (absolute_date == "") then some absolute_date else none;
      date_range = if time_type == "range" then date_range else none;
      requires_current_datetime =
          value.requires_current_datetime
          || value.needs_current_datetime
          || not (time_expression == "")
          || time_type == "relative"
          || time_type == "ambiguous";
    }
