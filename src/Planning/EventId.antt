-- ===== src/Planning/EventId.antt =====
-- `is_unresolved_calendar_event_id` of src/mini_rag/capabilities/calendar/resolver.py, on a text or a
-- missing value. A list of ids, which is unresolved as well, is no text here.
use mini_enterprise_rag_agen.Common.{
  String, Bool, true, false, ◌&&◌, ◌||◌, not, Option, List, [], ◌∷◌, ◌==◌, ◌≡◌, arith,
  if◌then◌else◌, strip, lower, text_or, contains, ends_with, strip_prefix?, is_some, mem,
  full_match,
}

abbrev pub placeholders : List String
placeholders =
    "all" ∷ "*" ∷ "全部" ∷ "所有" ∷ "event_id" ∷ "event_ids" ∷ "multiple" ∷ "many" ∷ "unknown"
    ∷ "placeholder" ∷ []

unfoldable pub is_unresolved_calendar_event_id : Option String → Bool
is_unresolved_calendar_event_id value =
    let text = strip (text_or value "") in
    let lowered = lower text in
    if text == ""
    then true
    else if mem lowered placeholders
    then true
    else if is_some (strip_prefix? "event_id_from_" lowered)
    then true
    else if ends_with ".event_id" lowered || contains "result.event_id" lowered
    then true
    else if contains "event" lowered
        && contains "from" lowered
        && not (is_some (strip_prefix? "evt-" lowered))
    then true
    else not (full_match "EVT-dddddddd-dddd" text)

-- A resolved id has the shape of the calendar's ids.
pub resolved_shape :
    (value : Option String)
    → is_unresolved_calendar_event_id value ≡ false
    → full_match "EVT-dddddddd-dddd" (strip (text_or value "")) ≡ true
unfolding is_unresolved_calendar_event_id
resolved_shape value h = ground arith
