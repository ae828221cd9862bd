-- ===== src/Tools/Calendar/Renewal.antt =====
-- Updates by `manage_company_calendar` of src/mini_rag/tools/calendar_tool.py.
use mini_enterprise_rag_agen.Common.{
  String, ◌≡◌, refl, ◌∙◌, sym, ap, true, false, ◌||◌, Option, none, some, List, [], ◌∷◌, ◌==◌,
  text_or, arith, Bool-cases, Option-cases, inl, inr, any, mem, strip, Dict, lookup, insert, eq_iff,
}
use mini_enterprise_rag_agen.Tools.Calendar.{
  Event, Python, get_or, id_of, role_of, action_of, is_denied, parse_date, update_field, update_all,
  update_fields, find_event, replace_first, has_bad_date, update, perform, manage_company_calendar,
}
use mini_enterprise_rag_agen.Tools.Calendar.Effects.{has_id, any-sort_events, lookup-insert_other}

-- The id of the event that was found, or the one that was looked for.
abbrev found_id : String → Option Event → String
found_id event_id none = event_id
found_id event_id (some e) = id_of e

module _ {D : Type 0} (py : Python D) where
  id-insert :
      (field v : String) (e : Event)
      → (field == "event_id") ≡ false
      → id_of (insert field v e) ≡ id_of e
  id-insert field v e other =
      ap (λ o. text_or o "") (lookup-insert_other field "event_id" v e other)

  id-update_field :
      (day : Option D) (payload : Dict String) (field : String) (e : Event)
      → (field == "event_id") ≡ false
      → id_of (update_field py day payload field e) ≡ id_of e
  unfolding update_field
  id-update_field day payload field e other = elim (Option-cases (lookup field payload)) [
    | inl absent ↦ rw (update_field, absent) refl
    | inr (v, given) ↦ elim (Bool-cases (field == "date")) [
      | inr plain ↦ rw (update_field, given, plain) (id-insert field (strip v) e other)
      | inl is_date ↦ elim (Option-cases day) [
        | inl undated ↦ rw (update_field, given, is_date, undated) refl
        | inr (d, dated) ↦
            rw (update_field, given, is_date, dated) (id-insert "date" (py.isoformat d) e refl)
      ]
    ]
  ]

  pub id-update_all :
      (day : Option D) (payload : Dict String) (fields : List String) (e : Event)
      → mem "event_id" fields ≡ false
      → id_of (update_all py day payload fields e) ≡ id_of e
  unfolding update_all mem
  id-update_all day payload [] e h = refl
  id-update_all day payload (field ∷ fields) e h =
      id-update_all day payload fields (update_field py day payload field e) (ground arith)
      ∙ id-update_field day payload field e
          (ground (arith, eq_iff "event_id" field, eq_iff field "event_id"))

  found_id-find_event :
      (event_id : String) (events : List Event)
      → found_id event_id (find_event py event_id events) ≡ event_id
  unfolding find_event
  found_id-find_event event_id [] = refl
  found_id-find_event event_id (f ∷ events) = elim (Bool-cases (id_of f == event_id)) [
    | inl here ↦ rw (find_event, here) ((eq_iff (id_of f) event_id).0 here)
    | inr there ↦ rw (find_event, there) (found_id-find_event event_id events)
  ]

  pub id-find_event :
      (event_id : String) (events : List Event) (e : Event)
      → find_event py event_id events ≡ some e
      → id_of e ≡ event_id
  id-find_event event_id events e h =
      ap (found_id event_id) (sym h) ∙ found_id-find_event event_id events

  has_id-replace_first :
      (x event_id : String) (new : Event) (events : List Event)
      → id_of new ≡ event_id
      → has_id x (replace_first py event_id new events) ≡ has_id x events
  unfolding any replace_first
  has_id-replace_first x event_id new [] h = refl
  has_id-replace_first x event_id new (e ∷ events) h = elim (Bool-cases (id_of e == event_id)) [
    | inl here ↦
        rw (replace_first, here)
          (ap (λ i. i == x || has_id x events) (h ∙ sym ((eq_iff (id_of e) event_id).0 here)))
    | inr there ↦ rw (replace_first, there) (rw (has_id-replace_first x event_id new events h) refl)
  ]

  has_id-update :
      (x : String) (payload : Dict String) (events : List Event)
      → has_id x (update py payload events).1 ≡ has_id x events
  unfolding update mem
  has_id-update x payload events =
      let event_id = strip (get_or "event_id" "" payload) in
      elim (Option-cases (find_event py event_id events)) [
        | inl missing ↦ rw (update, missing) refl
        | inr (e, found) ↦ elim (Bool-cases (has_bad_date py payload)) [
          | inl bad ↦ rw (update, found, bad) refl
          | inr good ↦
              rw (update, found, good)
                (any-sort_events _ _
                  ∙ has_id-replace_first x event_id _ events (
                      id-update_all (parse_date py "date" payload) payload update_fields e refl
                      ∙ id-find_event event_id events e found))
        ]
      ]

  manage-update :
      (payload : Dict String) (events : List Event)
      → action_of payload ≡ "update"
      → (role_of payload == "admin") ≡ true
      → manage_company_calendar py payload events ≡ update py payload events
  unfolding manage_company_calendar is_denied perform mem
  manage-update payload events updates admin =
      rw (manage_company_calendar, updates, is_denied, admin) refl

  -- An administrator's update neither adds nor removes an event id, whatever fields it changes.
  pub update-has_id :
      (x : String) (payload : Dict String) (events : List Event)
      → action_of payload ≡ "update"
      → (role_of payload == "admin") ≡ true
      → has_id x (manage_company_calendar py payload events).1 ≡ has_id x events
  update-has_id x payload events updates admin =
      rw (manage-update payload events updates admin) (has_id-update x payload events)
