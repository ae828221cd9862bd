-- ===== src/Tools/Calendar.antt =====
-- `manage_company_calendar` of src/mini_rag/tools/calendar_tool.py on its file backend, so for
-- payloads that name a file under "file_path"; without one the tool takes its SQLite branch, whose
-- table is in Tools/Repository. The file is the list of its events, each a dict of texts; a payload
-- is a dict of texts. Dates, `int` and the format `04d` are Python's.
pub mod Access
pub mod Effects
pub mod Removal
pub mod Creation
pub mod Renewal
use mini_enterprise_rag_agen.Common.{
  ℕ, suc, ◌+◌, max, String, [], ◌∷◌, Bool, true, false, ◌&&◌, ◌||◌, not, Option, none, some, List,
  [], ◌∷◌, ◌++◌, map, ◌==◌, eqb, if◌then◌else◌, strip, lower, or_else, text_or, text_leb,
  strip_prefix?, mem, filter, length, Dict, lookup, insert, ◌+++◌,
}

abbrev pub Event : Type 0
Event = Dict String

abbrev pub write_actions : List String
write_actions = "create" ∷ "update" ∷ "delete" ∷ []

abbrev pub actions : List String
actions = "query" ∷ write_actions

abbrev pub query_roles : List String
query_roles = "user" ∷ "employee" ∷ "finance" ∷ "hr" ∷ "it" ∷ "admin" ∷ []

abbrev pub update_fields : List String
update_fields = "title" ∷ "type" ∷ "date" ∷ "time" ∷ "department" ∷ "location" ∷ "description" ∷ []

-- What the tool uses of Python: `date.fromisoformat` (`none` where it raises), `isoformat`, `<`,
-- the Chinese name of the weekday, `int` (`none` where it raises), the format `04d`, and the two
-- text methods of the event id.
pub record Python (D : Type 0) : Type 0 where
  pub fromisoformat : String → Option D
  pub isoformat : D → String
  pub is_before : D → D → Bool
  pub weekday_zh : D → String
  pub int : String → Option ℕ
  pub format_04d : ℕ → String
  pub remove_dashes : String → String
  pub after_last_dash : String → String

pub data Response : Type 0 where
  unsupported_action : String → Response
  permission_denied : String → String → String → Response
  invalid_date : String → Response
  invalid_range : Response
  title_required : Response
  not_found : String → String → Response
  queried : String → String → String → String → List Event → Response
  created : String → Event → Response
  updated : String → Event → Response
  deleted : String → Response

-- `str(d.get(key) or default)`.
abbrev pub get_or : String → String → Dict String → String
get_or key default d = text_or (lookup key d) default

-- `str(d.get(key) or default).strip() or default`.
abbrev pub stripped_or : String → String → Dict String → String
stripped_or key default d = or_else (strip (get_or key default d)) default

abbrev pub id_of : Event → String
id_of event = get_or "event_id" "" event

-- `key <= key` of the sort key (date, time, event_id).
unfoldable pub is_sorted_before : Event → Event → Bool
is_sorted_before e f =
    if get_or "date" "" e == get_or "date" "" f
    then (if get_or "time" "" e == get_or "time" "" f
        then text_leb (id_of e) (id_of f)
        else text_leb (get_or "time" "" e) (get_or "time" "" f))
    else text_leb (get_or "date" "" e) (get_or "date" "" f)

unfoldable pub insert_event : Event → List Event → List Event
insert_event e [] = e ∷ []
insert_event e (f ∷ events) =
    let rest = insert_event e events in if is_sorted_before e f then e ∷ (f ∷ events) else f ∷ rest

unfoldable pub sort_events : List Event → List Event
sort_events [] = []
sort_events (e ∷ events) = insert_event e (sort_events events)

unfoldable pub permission_error : String → String → Response
permission_error action role =
    permission_denied action role
      (if mem action write_actions then "admin" else "user/employee/finance/hr/it/admin")

unfoldable pub role_of : Dict String → String
role_of payload = or_else (lower (strip (get_or "role" "guest" payload))) "guest"

unfoldable pub action_of : Dict String → String
action_of payload = lower (strip (get_or "action" "query" payload))

-- The two checks before the backend is chosen.
unfoldable pub is_denied : String → String → Bool
is_denied action role =
    (action == "query" && not (mem role query_roles))
    || (mem action write_actions && not (role == "admin"))

unfoldable pub without : String → List Event → List Event
without event_id events = filter (λ (e : Event). not (id_of e == event_id)) events

module _ {D : Type 0} (py : Python D) where
  unfoldable pub parse_date : String → Dict String → Option D
  parse_date key d = py.fromisoformat (get_or key "" d)

  unfoldable pub with_weekday : Event → Event
  with_weekday event = elim (parse_date "date" event) [
    | none ↦ event
    | some d ↦ if py.weekday_zh d == "" then event else insert "weekday_zh" (py.weekday_zh d) event
  ]

  -- The larger of the index so far and the event's.
  unfoldable pub index_of : String → Event → ℕ → ℕ
  index_of prefix event largest = elim (strip_prefix? prefix (id_of event)) [
    | none ↦ largest
    | some suffix ↦ elim (py.int (py.after_last_dash (id_of event))) [
      | none ↦ largest
      | some n ↦ max largest n
    ]
  ]

  unfoldable pub max_index : String → List Event → ℕ → ℕ
  max_index prefix [] largest = largest
  max_index prefix (event ∷ events) largest =
      max_index prefix events (index_of prefix event largest)

  unfoldable pub next_event_id : List Event → String → String
  next_event_id events event_date =
      let prefix = "EVT-" +++ py.remove_dashes event_date +++ "-" in
      prefix +++ py.format_04d (max_index prefix events 0 + 1)

  -- The tests of the loop of `_query`; an event without a date is skipped.
  unfoldable pub is_in_range : D → D → Event → Bool
  is_in_range start end event = elim (parse_date "date" event) [
    | none ↦ false
    | some d ↦ not (py.is_before d start || py.is_before end d)
  ]

  unfoldable pub is_matched : D → D → String → String → Event → Bool
  is_matched start end event_type department event =
      is_in_range start end event
      && (event_type == "all" || get_or "type" "" event == event_type)
      && (department == "all"
          || get_or "department" "all" event == "all"
          || get_or "department" "all" event == department)

  unfoldable pub matched_events : D → D → String → String → List Event → List Event
  matched_events start end event_type department events =
      sort_events (map with_weekday (filter (is_matched start end event_type department) events))

  unfoldable pub query_between : D → D → Dict String → List Event → Response
  query_between start end payload events =
      let event_type = stripped_or "event_type" "all" payload in
      let department = stripped_or "department" "all" payload in
      if py.is_before end start
      then invalid_range
      else queried (py.isoformat start) (py.isoformat end) event_type department
          (matched_events start end event_type department events)

  unfoldable pub query : Dict String → List Event → Response
  query payload events = elim (parse_date "start_date" payload) [
    | none ↦ invalid_date "start_date"
    | some start ↦ elim (parse_date "end_date" payload) [
      | none ↦ invalid_date "end_date"
      | some end ↦ query_between start end payload events
    ]
  ]

  unfoldable pub new_event : D → Dict String → List Event → Event
  new_event day payload events =
      ("event_id", next_event_id events (py.isoformat day))
      ∷ ("date", py.isoformat day)
      ∷ ("title", strip (get_or "title" "" payload))
      ∷ ("type", stripped_or "type" "meeting" payload)
      ∷ ("department", stripped_or "department" "all" payload)
      ∷ ("time", stripped_or "time" "全天" payload)
      ∷ ("location", strip (get_or "location" "" payload))
      ∷ ("description", strip (get_or "description" "" payload))
      ∷ []

  unfoldable pub create_on : D → Dict String → List Event → Response × List Event
  create_on day payload events =
      let event = new_event day payload events in
      if strip (get_or "title" "" payload) == ""
      then (title_required, events)
      else (created (id_of event) (with_weekday event), sort_events (events ++ event ∷ []))

  unfoldable pub create : Dict String → List Event → Response × List Event
  create payload events = elim (parse_date "date" payload) [
    | none ↦ (invalid_date "date", events)
    | some day ↦ create_on day payload events
  ]

  -- One field of the payload, if it is there; `day` is the parsed date.
  unfoldable pub update_field : Option D → Dict String → String → Event → Event
  update_field day payload field event = elim (lookup field payload) [
    | none ↦ event
    | some v ↦
        if field == "date"
        then elim day [ none ↦ event | some d ↦ insert "date" (py.isoformat d) event ]
        else insert field (strip v) event
  ]

  unfoldable pub update_all : Option D → Dict String → List String → Event → Event
  update_all day payload [] event = event
  update_all day payload (field ∷ fields) event =
      update_all day payload fields (update_field day payload field event)

  unfoldable pub find_event : String → List Event → Option Event
  find_event event_id [] = none
  find_event event_id (event ∷ events) =
      if id_of event == event_id then some event else find_event event_id events

  -- The first event with the id is changed in place.
  unfoldable pub replace_first : String → Event → List Event → List Event
  replace_first event_id new [] = []
  replace_first event_id new (event ∷ events) =
      let rest = replace_first event_id new events in
      if id_of event == event_id then new ∷ events else event ∷ rest

  -- `"date" in payload` with a text that is no date.
  unfoldable pub has_bad_date : Dict String → Bool
  has_bad_date payload = elim (lookup "date" payload) [
    | none ↦ false
    | some v ↦ elim (parse_date "date" payload) [ none ↦ true | some d ↦ false ]
  ]

  unfoldable pub update : Dict String → List Event → Response × List Event
  update payload events =
      let event_id = strip (get_or "event_id" "" payload) in
      elim (find_event event_id events) [
        | none ↦ (not_found "update" event_id, events)
        | some event ↦
            let event' = update_all (parse_date "date" payload) payload update_fields event in
            if has_bad_date payload then (invalid_date "date", events) else (
              updated event_id (with_weekday event'),
              sort_events (replace_first event_id event' events),
            )
      ]

  unfoldable pub delete : Dict String → List Event → Response × List Event
  delete payload events =
      let event_id = strip (get_or "event_id" "" payload) in
      let remaining = without event_id events in
      if eqb (length remaining) (length events)
      then (not_found "delete" event_id, events)
      else (deleted event_id, remaining)

  unfoldable pub perform : String → Dict String → List Event → Response × List Event
  perform action payload events =
      if action == "query"
      then (query payload events, events)
      else if action == "create"
      then create payload events
      else if action == "update"
      then update payload events
      else delete payload events

  unfoldable pub manage_company_calendar : Dict String → List Event → Response × List Event
  manage_company_calendar payload events =
      let action = action_of payload in
      if not (mem action actions)
      then (unsupported_action action, events)
      else if is_denied action (role_of payload)
      then (permission_error action (role_of payload), events)
      else perform action payload events
