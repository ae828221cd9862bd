-- ===== src/Tools/Examples.antt =====
-- Concrete runs of the calendar tool. Dates are their ISO texts here.
use mini_enterprise_rag_agen.Common.{
  is_some, ◌++◌, split_dash, String, ◌≡◌, refl, true, false, not, none, some, List, [], ◌∷◌, map,
  ◌==◌, eqb, if◌then◌else◌, text_leb, lookup, insert, filter, mem, lower, strip, any, strip_prefix?,
  Dict,
}
use mini_enterprise_rag_agen.Tools.Calendar.{
  Event, Python, get_or, id_of, insert_event, sort_events, role_of, action_of, is_denied,
  is_sorted_before, permission_error, parse_date, with_weekday, index_of, max_index, next_event_id,
  is_in_range, is_matched, matched_events, query_between, query, new_event, create_on, create,
  update_field, update_all, find_event, replace_first, has_bad_date, update, without, delete,
  perform, manage_company_calendar,
}
use mini_enterprise_rag_agen.Tools.Calendar.Effects.{has_id, events_of}
use mini_enterprise_rag_agen.Tools.Calendar.Access.{manage_company_calendar-role}
use mini_enterprise_rag_agen.Tools.Calendar.Creation.{create-query}
use mini_enterprise_rag_agen.Tools.Calendar.Removal.{delete-events_of}
use mini_enterprise_rag_agen.Tools.Calendar.Renewal.{update-has_id}
use mini_enterprise_rag_agen.Tools.Repository.{
  EventRow, integrity_error, stored, find_row, row_to_event, get_event, new_row, free_event_id,
  largest_index, create_event, delete_event, update_event, query_events, is_selected, order_rows,
  insert_row, is_row_before, weekday_of, time_text, split_time_range,
}
use mini_enterprise_rag_agen.Tools.Repository.Lookup.{
  get_event-delete_event, create_event_lem, update_event_lem,
}

abbrev python : Python String
python = record {
  fromisoformat = λ s. if s == "" then none else some s;
  isoformat = λ d. d;
  is_before = λ d e. not (text_leb e d);
  weekday_zh = λ d. if d == "2024-05-01" then "星期三" else "";
  int = λ s. if s == "0001" then some 1 else none;
  format_04d = λ n. if eqb n 2 then "0002" else "0001";
  remove_dashes = λ d. if d == "2024-05-01" then "20240501" else d;
  after_last_dash = λ s. if s == "EVT-20240501-0001" then "0001" else s;
}

-- What runs the tool.
running : Unit {0}
unfolding manage_company_calendar role_of action_of is_denied is_sorted_before insert_event
    sort_events permission_error parse_date with_weekday index_of max_index next_event_id
    is_in_range is_matched matched_events query_between query new_event create_on create
    update_field update_all find_event replace_first has_bad_date update without delete perform
    events_of lookup insert filter mem lower strip any strip_prefix?
running = tt

abbrev events : List Event
events =
    (("event_id", "EVT-20240501-0001")
      ∷ ("date", "2024-05-01")
      ∷ ("title", "Launch")
      ∷ ("time", "09:00")
      ∷ [])
    ∷ (("event_id", "EVT-20240601-0001") ∷ ("date", "2024-06-01") ∷ ("title", "Review") ∷ [])
    ∷ []

abbrev may : Dict String
may =
    ("file_path", "calendar.json")
    ∷ ("role", "hr")
    ∷ ("start_date", "2024-05-01")
    ∷ ("end_date", "2024-05-31")
    ∷ []

abbrev creation : Dict String
creation =
    ("file_path", "calendar.json")
    ∷ ("role", "Admin")
    ∷ ("action", " Create")
    ∷ ("date", "2024-05-01")
    ∷ ("title", "Party")
    ∷ []

abbrev deletion : Dict String
deletion =
    ("file_path", "calendar.json")
    ∷ ("role", "admin")
    ∷ ("action", "delete")
    ∷ ("event_id", "EVT-20240501-0001")
    ∷ []

abbrev change : Dict String
change =
    ("file_path", "calendar.json")
    ∷ ("role", "admin")
    ∷ ("action", "update")
    ∷ ("event_id", "EVT-20240501-0001")
    ∷ ("date", "2024-07-01")
    ∷ []

in_may :
    map id_of (events_of (manage_company_calendar python may events).0) ≡ "EVT-20240501-0001" ∷ []
unfolding running
in_may = refl

after_creation :
    map id_of (
      events_of
        (manage_company_calendar python may (manage_company_calendar python creation events).1).0)
    ≡ "EVT-20240501-0001" ∷ "EVT-20240501-0002" ∷ []
unfolding running
after_creation = refl

after_deletion :
    map id_of (manage_company_calendar python deletion events).1 ≡ "EVT-20240601-0001" ∷ []
unfolding running
after_deletion = refl

after_change :
    map id_of (manage_company_calendar python change events).1
    ≡ "EVT-20240601-0001" ∷ "EVT-20240501-0001" ∷ []
unfolding running
after_change = refl

manage_company_calendar-role_example :
    (manage_company_calendar python (insert "role" "hr" deletion) events).1 ≡ events
unfolding running
manage_company_calendar-role_example =
    manage_company_calendar-role python (insert "role" "hr" deletion) events refl

create-query_example :
    has_id (next_event_id python events (python.isoformat "2024-05-01")) (
      events_of
        (manage_company_calendar python may (manage_company_calendar python creation events).1).0)
    ≡ true
unfolding running
create-query_example =
    create-query python creation may events "2024-05-01" "2024-05-01" "2024-05-31" refl refl refl
      refl refl refl refl refl refl refl refl refl refl refl

delete-events_of_example :
    has_id (strip (get_or "event_id" "" deletion)) (
      events_of
        (manage_company_calendar python may (manage_company_calendar python deletion events).1).0)
    ≡ false
unfolding running
delete-events_of_example = delete-events_of python deletion may events refl refl refl

update-has_id_example :
    has_id "EVT-20240501-0001" (manage_company_calendar python change events).1
    ≡ has_id "EVT-20240501-0001" events
unfolding running
update-has_id_example = update-has_id python "EVT-20240501-0001" change events refl refl

abbrev row : String → EventRow
row event_id = record {
  event_id = event_id;
  owner_employee_id = "";
  title = "Launch";
  description = "";
  event_date = "2024-05-01";
  start_time = "09:00";
  end_time = "10:00";
  location = "";
  event_type = "meeting";
  department = "hr";
  created_at = "t0";
  updated_at = "t0";
}

abbrev rows : List EventRow
rows = row "EVT-20240501-0001" ∷ row "EVT-20240502-0001" ∷ []

abbrev party : Dict String
party = ("date", "2024-05-01") ∷ ("title", "Party") ∷ ("time", " 18:00 - 20:00") ∷ []

next_row :
    ((new_row python party rows "t1").event_id ≡ "EVT-20240501-0002")
    × ((new_row python party rows "t1").start_time ≡ "18:00")
    × ((new_row python party rows "t1").end_time ≡ "20:00")
unfolding running new_row free_event_id largest_index split_time_range split_dash
next_row = (refl, refl, refl)

hr_rows :
    map id_of (query_events python "2024-05-01" "2024-05-31" "meeting" "hr" rows)
    ≡ "EVT-20240501-0001" ∷ "EVT-20240502-0001" ∷ []
unfolding running query_events is_selected order_rows insert_row is_row_before weekday_of time_text
    row_to_event
hr_rows = refl

get_event-delete_event_example :
    get_event python "EVT-20240502-0001" (delete_event "EVT-20240501-0001" rows).1 ≡ (
      if "EVT-20240501-0001" == "EVT-20240502-0001"
      then none
      else get_event python "EVT-20240502-0001" rows)
get_event-delete_event_example =
    get_event-delete_event python "EVT-20240501-0001" "EVT-20240502-0001" rows

create_event_lem_example : create_event python party rows "t1" ≡ (
    if is_some (find_row (new_row python party rows "t1").event_id rows)
    then integrity_error
    else stored
        (row_to_event python (new_row python party rows "t1"))
        (rows ++ new_row python party rows "t1" ∷ []))
create_event_lem_example = create_event_lem python party rows "t1"

update_event_lem_example :
    (is_some (update_event python "EVT-20240501-0001" party rows "t1").0
      ≡ is_some (find_row "EVT-20240501-0001" rows))
    × (get_event python "EVT-20240502-0001"
          (update_event python "EVT-20240501-0001" party rows "t1").1
        ≡ get_event python "EVT-20240502-0001" rows)
update_event_lem_example =
    update_event_lem python "EVT-20240501-0001" "EVT-20240502-0001" party rows "t1" refl
