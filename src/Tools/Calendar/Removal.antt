-- ===== src/Tools/Calendar/Removal.antt =====
-- Deletions by `manage_company_calendar` of src/mini_rag/tools/calendar_tool.py.
use mathlib.Core.Bool.{false≢true}
use mini_enterprise_rag_agen.Common.{
  ◌≤◌, String, ◌≡◌, refl, ◌∙◌, sym, ◌||◌, ap, some, eq_iff, Bool, true, false, ◌&&◌, List, [], ◌∷◌,
  ◌==◌, arith, Bool-cases, Option-cases, inl, inr, any, filter, eqb, length, mem, strip, Dict,
}
use mini_enterprise_rag_agen.Tools.Calendar.{
  Event, Python, without, permission_error, actions, get_or, role_of, action_of, is_denied,
  parse_date, query_between, query, find_event, update_all, update_fields, has_bad_date, update,
  delete, perform, manage_company_calendar,
}
use mini_enterprise_rag_agen.Tools.Calendar.Effects.{
  has_id, events_of, id-with_weekday, has_id-matched_events,
}
use mini_enterprise_rag_agen.Tools.Calendar.Renewal.{id-update_all, id-find_event}

module _ {D : Type 0} (py : Python D) where
  any-and_false :
      (p q : Event → Bool) (events : List Event)
      → any p events ≡ false
      → any (λ e. p e && q e) events ≡ false
  unfolding any
  any-and_false p q [] h = refl
  any-and_false p q (e ∷ events) h = ground (arith, any-and_false p q events)

  id-query_between :
      (event_id : String) (start end : D) (q : Dict String) (events : List Event)
      → has_id event_id events ≡ false
      → has_id event_id (events_of (query_between py start end q events)) ≡ false
  unfolding query_between events_of any
  id-query_between event_id start end q events h = elim (Bool-cases (py.is_before end start)) [
    | inl reversed ↦ rw (query_between, reversed) refl
    | inr ordered ↦
        rw (query_between, ordered)
          (has_id-matched_events py event_id start end _ _ events ∙ any-and_false _ _ events h)
  ]

  id-query :
      (event_id : String) (q : Dict String) (events : List Event)
      → has_id event_id events ≡ false
      → has_id event_id (events_of (query py q events)) ≡ false
  unfolding query events_of any
  id-query event_id q events h = elim (Option-cases (parse_date py "start_date" q)) [
    | inl undated ↦ rw (query, undated) refl
    | inr (start, dated) ↦ elim (Option-cases (parse_date py "end_date" q)) [
      | inl no_end ↦ rw (query, dated, no_end) refl
      | inr (end, ended) ↦ rw (query, dated, ended) (id-query_between event_id start end q events h)
    ]
  ]

  find_event-has_id :
      (event_id : String) (events : List Event) (e : Event)
      → find_event py event_id events ≡ some e
      → has_id event_id events ≡ true
  unfolding find_event any
  find_event-has_id event_id [] e h = cc
  find_event-has_id event_id (f ∷ events) e h = ground (arith, find_event-has_id event_id events e)

  other-has_id :
      (event_id asked : String) (events : List Event)
      → has_id asked events ≡ true
      → has_id event_id events ≡ false
      → ((asked == event_id) || false) ≡ false
  other-has_id event_id asked events present absent = elim (Bool-cases (asked == event_id)) [
    | inr other ↦ rw other refl
    | inl same ↦ absurd (
        false≢true (
          sym absent
          ∙ (ap (λ (x : String). has_id x events) (sym ((eq_iff asked event_id).0 same))
              ∙ present)))
  ]

  -- The event of an update's answer has the id that was asked for, and this id is present.
  id-update :
      (event_id : String) (q : Dict String) (events : List Event)
      → has_id event_id events ≡ false
      → has_id event_id (events_of (update py q events).0) ≡ false
  unfolding update events_of any mem
  id-update event_id q events absent =
      let asked = strip (get_or "event_id" "" q) in
      elim (Option-cases (find_event py asked events)) [
        | inl missing ↦ rw (update, missing) refl
        | inr (e, found) ↦ elim (Bool-cases (has_bad_date py q)) [
          | inl bad ↦ rw (update, found, bad) refl
          | inr good ↦
              let same_id =
                id-with_weekday py (update_all py (parse_date py "date" q) q update_fields e)
                ∙ (id-update_all py (parse_date py "date" q) q update_fields e refl
                    ∙ id-find_event py asked events e found) in
              rw (update, found, good)
                (rw same_id (
                  other-has_id event_id asked events (find_event-has_id asked events e found)
                    absent))
        ]
      ]

  id-delete :
      (event_id : String) (q : Dict String) (events : List Event)
      → has_id event_id (events_of (delete py q events).0) ≡ false
  unfolding delete events_of any
  id-delete event_id q events =
      elim (Bool-cases
        (eqb (length (without (strip (get_or "event_id" "" q)) events)) (length events))) [
          | inl missing ↦ rw (delete, missing) refl
          | inr found ↦ rw (delete, found) refl
        ]

  id-perform :
      (event_id action : String) (q : Dict String) (events : List Event)
      → has_id event_id events ≡ false
      → (action == "create") ≡ false
      → has_id event_id (events_of (perform py action q events).0) ≡ false
  unfolding perform
  id-perform event_id action q events h other = elim (Bool-cases (action == "query")) [
    | inl queries ↦ rw (perform, queries) (id-query event_id q events h)
    | inr writes ↦ elim (Bool-cases (action == "update")) [
      | inl updates ↦ rw (perform, writes, other, updates) (id-update event_id q events h)
      | inr deletes ↦ rw (perform, writes, other, deletes) (id-delete event_id q events)
    ]
  ]

  pub id-manage_company_calendar :
      (event_id : String) (q : Dict String) (events : List Event)
      → has_id event_id events ≡ false
      → (action_of q == "create") ≡ false
      → has_id event_id (events_of (manage_company_calendar py q events).0) ≡ false
  unfolding manage_company_calendar permission_error events_of any
  id-manage_company_calendar event_id q events h other =
      elim (Bool-cases (mem (action_of q) actions)) [
        | inr unknown ↦ rw (manage_company_calendar, unknown) refl
        | inl known ↦ elim (Bool-cases (is_denied (action_of q) (role_of q))) [
          | inl refused ↦ rw (manage_company_calendar, known, refused) refl
          | inr open_ ↦
              rw (manage_company_calendar, known, open_)
                (id-perform event_id (action_of q) q events h other)
        ]
      ]

  has_id-without :
      (event_id : String) (events : List Event) → has_id event_id (without event_id events) ≡ false
  unfolding any filter without
  has_id-without event_id [] = refl
  has_id-without event_id (e ∷ events) = ground (arith, has_id-without event_id events)

  length-without :
      (event_id : String) (events : List Event) → length (without event_id events) ≤ length events
  unfolding filter without
  length-without event_id [] = ground arith
  length-without event_id (e ∷ events) = ground (arith, length-without event_id events)

  -- Equal lengths mean that nothing was dropped.
  has_id-length :
      (event_id : String) (events : List Event)
      → length (without event_id events) ≡ length events
      → has_id event_id events ≡ false
  unfolding any filter without
  has_id-length event_id [] h = refl
  has_id-length event_id (e ∷ events) h =
      ground (arith, has_id-length event_id events, length-without event_id events)

  has_id-delete :
      (payload : Dict String) (events : List Event)
      → has_id (strip (get_or "event_id" "" payload)) (delete py payload events).1 ≡ false
  unfolding delete
  has_id-delete payload events =
      let event_id = strip (get_or "event_id" "" payload) in
      elim (Bool-cases (eqb (length (without event_id events)) (length events))) [
        | inl missing ↦ rw (delete, missing) (has_id-length event_id events (ground arith))
        | inr found ↦ rw (delete, found) (has_id-without event_id events)
      ]

  manage-delete :
      (payload : Dict String) (events : List Event)
      → action_of payload ≡ "delete"
      → (role_of payload == "admin") ≡ true
      → manage_company_calendar py payload events ≡ delete py payload events
  unfolding manage_company_calendar is_denied perform mem
  manage-delete payload events deletes admin =
      rw (manage_company_calendar, deletes, is_denied, admin) refl

  -- After an administrator's deletion, no query, update or deletion is answered with an event of
  -- the deleted id. (A creation may give the id out again.)
  pub delete-events_of :
      (payload q : Dict String) (events : List Event)
      → action_of payload ≡ "delete"
      → (role_of payload == "admin") ≡ true
      → (action_of q == "create") ≡ false
      → has_id
          (strip (get_or "event_id" "" payload))
          (events_of (manage_company_calendar py q (manage_company_calendar py payload events).1).0)
        ≡ false
  delete-events_of payload q events deletes admin other =
      id-manage_company_calendar _ q _
        (rw (manage-delete payload events deletes admin) (has_id-delete payload events)) other
