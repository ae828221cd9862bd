-- ===== src/Tools/Repository.antt =====
-- `CalendarRepository` of src/mini_rag/tools/repositories/calendar_repository.py: the table
-- `calendar_events` as a list of rows, and every method. The clock of SQLite is an argument; dates,
-- `int` and the format `04d` are Python's. A row keeps "" where the table has NULL,
-- and its owner is taken to be an employee.
pub mod Lookup
use mini_enterprise_rag_agen.Common.{
  ℕ, suc, ◌+◌, max, String, [], ◌∷◌, Bool, true, false, ◌&&◌, ◌||◌, not, Option, none, some, List,
  [], ◌∷◌, ◌++◌, map, ◌==◌, eqb, if◌then◌else◌, strip, lower, or_else, text_or, text_leb,
  strip_prefix?, split_dash, filter, length, is_some, is_empty, Dict, lookup, keys, ◌+++◌,
}
use mini_enterprise_rag_agen.Tools.Calendar.{Event, Python, get_or, stripped_or, update_fields}

pub record EventRow : Type 0 where
  pub event_id : String
  pub owner_employee_id : String
  pub title : String
  pub description : String
  pub event_date : String
  pub start_time : String
  pub end_time : String
  pub location : String
  pub event_type : String
  pub department : String
  pub created_at : String
  pub updated_at : String

-- What `create_event` does: it returns, or an exception is raised.
pub data Creation : Type 0 where
  stored : Event → List EventRow → Creation
  integrity_error : Creation
  runtime_error : Creation

unfoldable pub split_time_range : String → String × String
split_time_range value =
    let text = strip value in
    if text == "" || text == "全天"
    then ("", "")
    else elim (split_dash text) [ none ↦ (text, "") | some (start, end) ↦ (strip start, strip end) ]

-- ORDER BY event_date ASC, start_time ASC, event_id ASC.
unfoldable pub is_row_before : EventRow → EventRow → Bool
is_row_before e f =
    if e.event_date == f.event_date
    then (if e.start_time == f.start_time
        then text_leb e.event_id f.event_id
        else text_leb e.start_time f.start_time)
    else text_leb e.event_date f.event_date

unfoldable pub insert_row : EventRow → List EventRow → List EventRow
insert_row e [] = e ∷ []
insert_row e (f ∷ rows) =
    let rest = insert_row e rows in if is_row_before e f then e ∷ (f ∷ rows) else f ∷ rest

unfoldable pub order_rows : List EventRow → List EventRow
order_rows [] = []
order_rows (e ∷ rows) = insert_row e (order_rows rows)

-- The WHERE clause of `query_events`.
unfoldable pub is_selected : String → String → String → String → EventRow → Bool
is_selected start_date end_date event_type department row =
    text_leb start_date row.event_date
    && text_leb row.event_date end_date
    && (event_type == "all" || row.event_type == event_type)
    && (department == "all" || row.department == "all" || row.department == department)

-- SELECT … WHERE event_id = ?
unfoldable pub find_row : String → List EventRow → Option EventRow
find_row event_id [] = none
find_row event_id (row ∷ rows) =
    let rest = find_row event_id rows in if row.event_id == event_id then some row else rest

-- UPDATE … WHERE event_id = ?
unfoldable pub update_rows : String → (EventRow → EventRow) → List EventRow → List EventRow
update_rows event_id set [] = []
update_rows event_id set (row ∷ rows) =
    let rest = update_rows event_id set rows in
    if row.event_id == event_id then set row ∷ rest else row ∷ rest

-- DELETE … WHERE event_id = ?
unfoldable pub delete_rows : String → List EventRow → List EventRow
delete_rows event_id [] = []
delete_rows event_id (row ∷ rows) =
    let rest = delete_rows event_id rows in if row.event_id == event_id then rest else row ∷ rest

unfoldable pub delete_event : String → List EventRow → Bool × List EventRow
delete_event event_id rows = (is_some (find_row event_id rows), delete_rows event_id rows)

-- One field of an update.
unfoldable pub set_field : Dict String → String → EventRow → EventRow
set_field fields field row = elim (lookup field fields) [
  | none ↦ row
  | some value ↦
      if field == "type"
      then record row { event_type = strip value }
      else if field == "date"
      then record row { event_date = strip value }
      else if field == "time"
      then record row {
        start_time = (split_time_range value).0;
        end_time = (split_time_range value).1;
      }
      else if field == "title"
      then record row { title = strip value }
      else if field == "department"
      then record row { department = strip value }
      else if field == "location"
      then record row { location = strip value }
      else if field == "description"
      then record row { description = strip value }
      else row
]

unfoldable pub set_fields : Dict String → List String → EventRow → EventRow
set_fields fields [] row = row
set_fields fields (field ∷ names) row = set_fields fields names (set_field fields field row)

-- The fields that an update changes.
unfoldable pub changed_fields : Dict String → List String
changed_fields fields = filter (λ field. is_some (lookup field fields)) update_fields

module _ {D : Type 0} (py : Python D) where
  unfoldable pub weekday_of : String → String
  weekday_of value = elim (py.fromisoformat value) [ none ↦ "" | some d ↦ py.weekday_zh d ]

  unfoldable pub time_text : EventRow → String
  time_text row =
      if not (row.start_time == "") && not (row.end_time == "")
      then row.start_time +++ "-" +++ row.end_time
      else or_else row.start_time "全天"

  unfoldable pub row_to_event : EventRow → Event
  row_to_event row =
      ("event_id", row.event_id)
      ∷ ("date", row.event_date)
      ∷ ("title", row.title)
      ∷ ("type", row.event_type)
      ∷ ("department", or_else row.department "all")
      ∷ ("time", time_text row)
      ∷ ("location", row.location)
      ∷ ("description", row.description)
      ∷ ("owner_employee_id", row.owner_employee_id)
      ∷ ("created_at", row.created_at)
      ∷ ("updated_at", row.updated_at)
      ∷ (if weekday_of row.event_date == ""
          then []
          else ("weekday_zh", weekday_of row.event_date) ∷ [])

  unfoldable pub query_events : String → String → String → String → List EventRow → List Event
  query_events start_date end_date event_type department rows =
      map row_to_event
        (order_rows (filter (is_selected start_date end_date event_type department) rows))

  unfoldable pub get_event : String → List EventRow → Option Event
  get_event event_id rows = elim (find_row event_id rows) [
    | none ↦ none
    | some row ↦ some (row_to_event row)
  ]

  -- LIKE does not tell the cases of ASCII letters apart.
  unfoldable pub largest_index : String → List EventRow → ℕ → ℕ
  largest_index prefix [] largest = largest
  largest_index prefix (row ∷ rows) largest =
      largest_index prefix rows (elim (strip_prefix? (lower prefix) (lower row.event_id)) [
        | none ↦ largest
        | some suffix ↦ elim (py.int (py.after_last_dash row.event_id)) [
          | none ↦ largest
          | some n ↦ max largest n
        ]
      ])

  unfoldable pub free_event_id : String → List EventRow → String
  free_event_id event_date rows =
      let prefix = "EVT-" +++ py.remove_dashes event_date +++ "-" in
      prefix +++ py.format_04d (largest_index prefix rows 0 + 1)

  unfoldable pub new_row : Dict String → List EventRow → String → EventRow
  new_row event rows now =
      let event_date = text_or (lookup "date" event) (get_or "event_date" "" event) in
      record {
        event_id = text_or (lookup "event_id" event) (free_event_id event_date rows);
        owner_employee_id = strip (get_or "owner_employee_id" "" event);
        title = strip (get_or "title" "" event);
        description = strip (get_or "description" "" event);
        event_date = event_date;
        start_time = (split_time_range (get_or "time" "" event)).0;
        end_time = (split_time_range (get_or "time" "" event)).1;
        location = strip (get_or "location" "" event);
        event_type =
            or_else (strip (text_or (lookup "type" event) (get_or "event_type" "meeting" event)))
              "meeting";
        department = stripped_or "department" "all" event;
        created_at = now;
        updated_at = now;
      }

  unfoldable pub read_back : Option Event → List EventRow → Creation
  read_back none rows = runtime_error
  read_back (some event) rows = stored event rows

  unfoldable pub create_event : Dict String → List EventRow → String → Creation
  create_event event rows now =
      let row = new_row event rows now in
      if is_some (find_row row.event_id rows)
      then integrity_error
      else read_back (get_event row.event_id (rows ++ row ∷ [])) (rows ++ row ∷ [])

  unfoldable pub update_event :
      String → Dict String → List EventRow → String → Option Event × List EventRow
  update_event event_id fields rows now =
      let rows' =
        update_rows event_id
          (λ row. record (set_fields fields update_fields row) { updated_at = now }) rows in
      if is_empty (changed_fields fields)
      then (get_event event_id rows, rows)
      else if not (is_some (find_row event_id rows))
      then (none, rows)
      else (get_event event_id rows', rows')
