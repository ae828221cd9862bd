-- ===== src/Tools/Calendar/Effects.antt =====
-- The events that `manage_company_calendar` of src/mini_rag/tools/calendar_tool.py answers with, seen
-- by their ids.
use mini_enterprise_rag_agen.Common.{
  String, ◌≡◌, refl, ◌∙◌, ap, Bool, false, ◌&&◌, ◌||◌, List, [], ◌∷◌, ◌++◌, map, ◌==◌, text_or,
  arith, Bool-cases, Option-cases, inl, inr, any, filter, Dict, lookup, insert, lookup-insert,
}
use mini_enterprise_rag_agen.Tools.Calendar.{
  Event, Python, Response, queried, created, updated, id_of, insert_event, sort_events, parse_date,
  with_weekday, is_matched, matched_events,
}

-- Some event has this id.
abbrev pub has_id : String → List Event → Bool
has_id event_id events = any (λ (e : Event). id_of e == event_id) events

-- The events that a response carries: those found by a query, or the one created or updated.
unfoldable pub events_of : Response → List Event
events_of (queried start end event_type department events) = events
events_of (created event_id event) = event ∷ []
events_of (updated event_id event) = event ∷ []
events_of _ = []

pub any-insert_event :
    (p : Event → Bool) (e : Event) (events : List Event)
    → any p (insert_event e events) ≡ (p e || any p events)
unfolding any insert_event
any-insert_event p e [] = refl
any-insert_event p e (f ∷ events) = ground (arith, any-insert_event p e events)

pub any-sort_events :
    (p : Event → Bool) (events : List Event) → any p (sort_events events) ≡ any p events
unfolding any sort_events
any-sort_events p [] = refl
any-sort_events p (e ∷ events) =
    any-insert_event p e (sort_events events) ∙ rw (any-sort_events p events) refl

pub any-append : (p : Event → Bool) (xs ys : List Event) → any p (xs ++ ys) ≡ (any p xs || any p ys)
unfolding any
any-append p [] ys = refl
any-append p (x ∷ xs) ys = ground (arith, any-append p xs ys)

pub any-filter :
    (p q : Event → Bool) (events : List Event)
    → any p (filter q events) ≡ any (λ e. p e && q e) events
unfolding any filter
any-filter p q [] = refl
any-filter p q (e ∷ events) = ground (arith, any-filter p q events)

pub any-false :
    (p : Event → Bool) (events : List Event) → ((e : Event) → p e ≡ false) → any p events ≡ false
unfolding any
any-false p [] h = refl
any-false p (e ∷ events) h = ground (arith, h e, any-false p events h)

pub lookup-insert_other :
    (k j v : String) (d : Dict String) → (k == j) ≡ false → lookup j (insert k v d) ≡ lookup j d
lookup-insert_other k j v d h = lookup-insert k j v d ∙ ground arith

module _ {D : Type 0} (py : Python D) where
  pub id-with_weekday : (event : Event) → id_of (with_weekday py event) ≡ id_of event
  unfolding with_weekday
  id-with_weekday event = elim (Option-cases (parse_date py "date" event)) [
    | inl undated ↦ rw (with_weekday, undated) refl
    | inr (d, dated) ↦ elim (Bool-cases (py.weekday_zh d == "")) [
      | inl unnamed ↦ rw (with_weekday, dated, unnamed) refl
      | inr named_day ↦
          rw (with_weekday, dated, named_day)
            (ap (λ o. text_or o "")
              (lookup-insert_other "weekday_zh" "event_id" (py.weekday_zh d) event refl))
    ]
  ]

  pub has_id-map :
      (event_id : String) (events : List Event)
      → has_id event_id (map (with_weekday py) events) ≡ has_id event_id events
  unfolding any
  has_id-map event_id [] = refl
  has_id-map event_id (e ∷ events) = rw (id-with_weekday e, has_id-map event_id events) refl

  pub has_id-matched_events :
      (event_id : String) (start end : D) (event_type department : String) (events : List Event)
      → has_id event_id (matched_events py start end event_type department events)
        ≡ any
            (λ (e : Event). id_of e == event_id && is_matched py start end event_type department e)
            events
  unfolding matched_events
  has_id-matched_events event_id start end event_type department events =
      any-sort_events _ _ ∙ (has_id-map event_id _ ∙ any-filter _ _ events)
