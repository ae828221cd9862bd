-- ===== src/Resolution/Selector.antt =====
-- Selectors of calendar events in src/mini_rag/capabilities/calendar/resolver.py. A selector is a dict
-- of texts, with the two dates of its key "date_range" if that is a dict.
use mini_enterprise_rag_agen.Common.{
  String, Bool, true, false, ◌&&◌, ◌||◌, not, Option, none, some, List, [], ◌∷◌, ◌==◌,
  if◌then◌else◌, strip, lower, text_or, text_leb, contains, mem, filter, any, all, is_empty,
  is_some, Dict, lookup, insert, ◌+++◌,
}
use mini_enterprise_rag_agen.Orchestration.React.{Task}
use mini_enterprise_rag_agen.Tools.Calendar.{Event, get_or}
use mini_enterprise_rag_agen.Planning.EventId.{is_unresolved_calendar_event_id}

pub record Selector : Type 0 where
  pub fields : Dict String
  pub date_range : Option (Option String × Option String)

-- A task with the keys that the executor's record leaves out. `selectors` are the values of the keys
-- "selector", "event_selector", "target" and "match" of its tool input, `none` for one that is no
-- dict.
pub record WriteTask : Type 0 where
  pub task : Task
  pub instruction : Option String
  pub select : Option String
  pub ordinal : Option String
  pub position : Option String
  pub selectors : List (Option Selector)
  pub pending_update : Option (Dict String)
  pub fields : Option (Dict String)

abbrev pub generic_titles : List String
generic_titles = "会议" ∷ "公司会议" ∷ "日程" ∷ "公司日程" ∷ "安排" ∷ "活动" ∷ "事件" ∷ []

abbrev pub no_selector : Selector
no_selector = record { fields = []; date_range = none }

abbrev pub is_no_selector : Selector → Bool
is_no_selector s = is_empty s.fields && not (is_some s.date_range)

-- `d.pop(key, None)`.
unfoldable pub remove : String → Dict String → Dict String
remove key d = filter (λ (kv : String × String). not (kv.0 == key)) d

-- `d.setdefault(key, value)`.
unfoldable pub put_default : String → String → Dict String → Dict String
put_default key value d = if is_some (lookup key d) then d else insert key value d

-- `str(d.get(a) or d.get(b) or "").strip()`.
abbrev pub stripped_either : String → String → Dict String → String
stripped_either a b d = strip (text_or (lookup a d) (get_or b "" d))

unfoldable pub clean_calendar_selector : Selector → Selector
clean_calendar_selector selector =
    let titled =
      if mem (strip (get_or "title" "" selector.fields)) generic_titles
      then remove "title" selector.fields
      else selector.fields in
    record selector {
      fields =
          if mem (stripped_either "title_contains" "title_keyword" titled) generic_titles
          then remove "title_keyword" (remove "title_contains" titled)
          else titled;
    }

-- The first of the four keys that holds a dict.
unfoldable pub calendar_update_selector : List (Option Selector) → Selector
calendar_update_selector [] = no_selector
calendar_update_selector (none ∷ rest) = calendar_update_selector rest
calendar_update_selector (some s ∷ rest) = s

unfoldable pub drop_unresolved : String → Dict String → Dict String
drop_unresolved key d =
    if is_some (lookup key d) && is_unresolved_calendar_event_id (lookup key d)
    then remove key d
    else d

unfoldable pub sanitize_unresolved_event_selector : Selector → Selector
sanitize_unresolved_event_selector selector =
    let cleaned = clean_calendar_selector selector in
    record cleaned {
      fields = drop_unresolved "event_ids" (drop_unresolved "event_id" cleaned.fields);
    }

unfoldable pub says : List String → String → Bool
says tokens text = any (λ token. contains token text) tokens

unfoldable pub task_text : WriteTask → String
task_text t =
    text_or t.task.objective ""
    +++ " "
    +++ text_or t.task.query ""
    +++ " "
    +++ text_or t.instruction ""

unfoldable pub inferred_ordinal : String → Option String
inferred_ordinal text =
    if says ("全部" ∷ "所有" ∷ []) text
    then some "all"
    else if says ("第一个" ∷ "第一条" ∷ "首个" ∷ "第 1 个" ∷ "第1个" ∷ []) text
    then some "first"
    else if says ("第二个" ∷ "第二条" ∷ "第 2 个" ∷ "第2个" ∷ []) text
    then some "2"
    else if says ("最后一个" ∷ "最后一条" ∷ []) text
    then some "last"
    else none

unfoldable pub infer_selector_from_task_text : WriteTask → Selector
infer_selector_from_task_text t = elim (inferred_ordinal (task_text t)) [
  | none ↦ no_selector
  | some ordinal ↦ record no_selector { fields = ("ordinal", ordinal) ∷ [] }
]

-- The inferred ordinal, where the selector has none.
unfoldable pub with_inferred : Selector → Selector → Selector
with_inferred selector inferred =
    if is_no_selector selector then inferred else elim (lookup "ordinal" inferred.fields) [
      | none ↦ selector
      | some ordinal ↦ record selector { fields = put_default "ordinal" ordinal selector.fields }
    ]

-- `event_date < start` and `event_date > end` on texts.
unfoldable pub is_in_date_range : Option (Option String × Option String) → Event → Bool
is_in_date_range none event = true
is_in_date_range (some (start_date, end_date)) event =
    let start = strip (text_or start_date "") in
    let end = strip (text_or end_date "") in
    let event_date = strip (get_or "date" "" event) in
    (start == "" || text_leb start event_date) && (end == "" || text_leb event_date end)

abbrev pub actual_key : String → String
actual_key key = if key == "event_type" then "type" else key

unfoldable pub matches_key : Dict String → Event → String → Bool
matches_key selector event key =
    let expected = get_or key "" selector in
    expected == ""
    || (actual_key key == "title" && mem (strip expected) generic_titles)
    || strip (get_or (actual_key key) "" event) == strip expected

abbrev pub selector_keys : List String
selector_keys =
    "event_id" ∷ "date" ∷ "weekday_zh" ∷ "time" ∷ "title" ∷ "type" ∷ "event_type" ∷ "department"
    ∷ []

unfoldable pub event_matches_selector : Selector → Event → Bool
event_matches_selector selector event =
    let title_contains = stripped_either "title_contains" "title_keyword" selector.fields in
    is_in_date_range selector.date_range event
    && all (matches_key selector.fields event) selector_keys
    && (title_contains == "" || contains title_contains (get_or "title" "" event))

abbrev pub last_of : Event → List Event → Event
last_of event [] = event
last_of event (next ∷ events) = last_of next events

unfoldable pub ordinal_of : Selector → String
ordinal_of selector = lower (
    strip (
      text_or (lookup "ordinal" selector.fields)
        (text_or (lookup "position" selector.fields) (get_or "select" "" selector.fields))))

abbrev pub all_names : List String
all_names = "all" ∷ "全部" ∷ "所有" ∷ []

-- The choice among at least two candidates.
unfoldable pub choose_by_ordinal : String → Event → Event → List Event → List Event × Bool
choose_by_ordinal ordinal first second others =
    if mem ordinal ("first" ∷ "1" ∷ "第一个" ∷ "第一条" ∷ [])
    then (first ∷ [], true)
    else if mem ordinal ("second" ∷ "2" ∷ "第二个" ∷ "第二条" ∷ [])
    then (second ∷ [], true)
    else if mem ordinal ("last" ∷ "最后一个" ∷ "最后一条" ∷ [])
    then (last_of second others ∷ [], true)
    else (first ∷ (second ∷ others), mem ordinal all_names)

unfoldable pub choose_candidates : String → List Event → List Event × Bool
choose_candidates ordinal [] = ([], false)
choose_candidates ordinal (event ∷ []) = (event ∷ [], true)
choose_candidates ordinal (first ∷ (second ∷ others)) =
    choose_by_ordinal ordinal first second others

unfoldable pub select_calendar_events : List Event → Selector → List Event × Bool
select_calendar_events events selector =
    choose_candidates (ordinal_of selector) (filter (event_matches_selector selector) events)

-- One of the values asks for all.
unfoldable pub asks_for_all : Option String → Bool
asks_for_all value =
    let text = lower (strip (text_or value "")) in
    mem text all_names || says ("所有" ∷ "全部" ∷ []) text

abbrev pub tool_input_of : WriteTask → Dict String
tool_input_of t = elim t.task.tool_input [ none ↦ [] | some d ↦ d ]

unfoldable pub calendar_all_selector_requested : WriteTask → Bool
calendar_all_selector_requested t =
    let selector = (calendar_update_selector t.selectors).fields in
    let input = tool_input_of t in
    any asks_for_all (
      lookup "event_id" input
      ∷ lookup "event_ids" input
      ∷ lookup "select" input
      ∷ lookup "ordinal" input
      ∷ lookup "position" input
      ∷ t.select
      ∷ t.ordinal
      ∷ t.position
      ∷ t.task.objective
      ∷ lookup "select" selector
      ∷ lookup "ordinal" selector
      ∷ lookup "position" selector
      ∷ [])
