-- ===== src/Tools/Calendar/Creation.antt =====
-- Creations by `manage_company_calendar` of src/mini_rag/tools/calendar_tool.py.
use mini_enterprise_rag_agen.Common.{
  or_else-nil, String, ◌≡◌, refl, ◌∙◌, Bool, true, false, ◌&&◌, ◌||◌, some, List, ◌==◌, arith, any,
  mem, strip, Dict, lookup, eq_refl,
}
use mini_enterprise_rag_agen.Tools.Calendar.{
  Event, Python, query_roles, get_or, stripped_or, id_of, role_of, action_of, is_denied, parse_date,
  next_event_id, is_in_range, is_matched, query_between, query, new_event, create_on, create,
  perform, manage_company_calendar,
}
use mini_enterprise_rag_agen.Tools.Calendar.Effects.{
  has_id, events_of, any-sort_events, any-append, has_id-matched_events,
}

is_denied-query : (role : String) → mem role query_roles ≡ true → is_denied "query" role ≡ false
unfolding is_denied mem
is_denied-query role reader = ground arith

module _ {D : Type 0} (py : Python D) where
  manage-create :
      (payload : Dict String) (events : List Event)
      → action_of payload ≡ "create"
      → (role_of payload == "admin") ≡ true
      → manage_company_calendar py payload events ≡ create py payload events
  unfolding manage_company_calendar is_denied perform mem
  manage-create payload events creates admin =
      rw (manage_company_calendar, creates, is_denied, admin) refl

  manage-query :
      (q : Dict String) (events : List Event)
      → action_of q ≡ "query"
      → mem (role_of q) query_roles ≡ true
      → manage_company_calendar py q events ≡ (query py q events, events)
  unfolding manage_company_calendar perform mem
  manage-query q events queries reader =
      rw (manage_company_calendar, queries, is_denied-query (role_of q) reader) refl

  -- The file after a creation, as far as a test of one event sees it.
  any-create :
      (p : Event → Bool) (payload : Dict String) (events : List Event) (day : D)
      → parse_date py "date" payload ≡ some day
      → (strip (get_or "title" "" payload) == "") ≡ false
      → any p (create py payload events).1 ≡ (any p events || p (new_event py day payload events))
  unfolding create create_on any
  any-create p payload events day dated titled =
      rw (create, dated, create_on, titled)
        (any-sort_events p _ ∙ (any-append p events _ ∙ ground arith))

  query-between :
      (event_id : String) (q : Dict String) (events : List Event) (start end : D)
      → parse_date py "start_date" q ≡ some start
      → parse_date py "end_date" q ≡ some end
      → py.is_before end start ≡ false
      → has_id event_id (events_of (query py q events))
        ≡ any
            (λ (e : Event).
              id_of e == event_id
              && is_matched py start end
                  (stripped_or "event_type" "all" q)
                  (stripped_or "department" "all" q)
                  e)
            events
  unfolding query query_between events_of
  query-between event_id q events start end started ended ordered =
      rw (query, started, ended, query_between, ordered)
        (has_id-matched_events py event_id start end _ _ events)

  id-new_event :
      (day : D) (payload : Dict String) (events : List Event)
      → id_of (new_event py day payload events) ≡ next_event_id py events (py.isoformat day)
  unfolding new_event lookup
  id-new_event day payload events = or_else-nil _

  is_matched-new_event :
      (day start end : D) (payload : Dict String) (events : List Event)
      → py.fromisoformat (py.isoformat day) ≡ some day
      → py.is_before day start ≡ false
      → py.is_before end day ≡ false
      → is_matched py start end "all" "all" (new_event py day payload events) ≡ true
  unfolding is_matched is_in_range parse_date new_event lookup
  is_matched-new_event day start end payload events again since until =
      rw (is_matched, is_in_range, parse_date, or_else-nil (py.isoformat day), again, since, until)
        refl

  -- An event that an administrator creates with a title and a date is in the answer of every later
  -- query over all types and departments whose range holds the date, asked by any of the query
  -- roles, where `isoformat` of the date is read as that date.
  pub create-query :
      (payload q : Dict String) (events : List Event) (day start end : D)
      → action_of payload ≡ "create"
      → (role_of payload == "admin") ≡ true
      → parse_date py "date" payload ≡ some day
      → (strip (get_or "title" "" payload) == "") ≡ false
      → py.fromisoformat (py.isoformat day) ≡ some day
      → action_of q ≡ "query"
      → mem (role_of q) query_roles ≡ true
      → parse_date py "start_date" q ≡ some start
      → parse_date py "end_date" q ≡ some end
      → py.is_before end start ≡ false
      → py.is_before day start ≡ false
      → py.is_before end day ≡ false
      → stripped_or "event_type" "all" q ≡ "all"
      → stripped_or "department" "all" q ≡ "all"
      → has_id
          (next_event_id py events (py.isoformat day))
          (events_of (manage_company_calendar py q (manage_company_calendar py payload events).1).0)
        ≡ true
  create-query payload q events day start end creates admin dated titled again queries reader
        started ended ordered since until types departments =
      rw
        (
          manage-create payload events creates admin,
          manage-query q (create py payload events).1 queries reader,
          query-between (next_event_id py events (py.isoformat day)) q (create py payload events).1
              start end started ended ordered,
          types,
          departments,
          any-create _ payload events day dated titled,
          id-new_event day payload events,
          eq_refl (next_event_id py events (py.isoformat day)),
          is_matched-new_event day start end payload events again since until,
        )
        (ground arith)
