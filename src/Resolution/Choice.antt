-- ===== src/Resolution/Choice.antt =====
-- What `select_calendar_events` of src/mini_rag/capabilities/calendar/resolver.py selects.
use mini_enterprise_rag_agen.Common.{
  String, ◌≡◌, Bool, true, ◌&&◌, List, [], ◌∷◌, leb, mem, filter, any, any-filter, length, arith,
  sym, ◌∙◌,
}
use mini_enterprise_rag_agen.Tools.Calendar.{Event}
use mini_enterprise_rag_agen.Resolution.Selector.{
  Selector, event_matches_selector, last_of, ordinal_of, all_names, choose_by_ordinal,
  choose_candidates, select_calendar_events,
}

-- Each selected event is one of the events that pass the test.
abbrev pub AreAmong : List Event → (Event → Bool) → List Event → Type 0
AreAmong chosen test events =
    (p : Event → Bool) → any p chosen ≡ true → any (λ e. test e && p e) events ≡ true

any-last_of :
    (p : Event → Bool) (e : Event) (events : List Event)
    → p (last_of e events) ≡ true
    → any p (e ∷ events) ≡ true
unfolding any
any-last_of p e [] h = ground arith
any-last_of p e (f ∷ events) h = ground (arith, any-last_of p f events h)

any-choose_candidates :
    (p : Event → Bool) (ordinal : String) (events : List Event)
    → any p (choose_candidates ordinal events).0 ≡ true
    → any p events ≡ true
unfolding any choose_candidates choose_by_ordinal
any-choose_candidates p ordinal [] h = h
any-choose_candidates p ordinal (e ∷ []) h = h
any-choose_candidates p ordinal (e ∷ (f ∷ events)) h = ground (arith, any-last_of p f events)

-- Several events are safe only where all were asked for.
several-choose_candidates :
    (ordinal : String) (events : List Event)
    → (choose_candidates ordinal events).1 ≡ true
    → leb 2 (length (choose_candidates ordinal events).0) ≡ true
    → mem ordinal all_names ≡ true
unfolding choose_candidates choose_by_ordinal
several-choose_candidates ordinal [] safe several = cc
several-choose_candidates ordinal (e ∷ []) safe several = cc
several-choose_candidates ordinal (e ∷ (f ∷ events)) safe several = ground arith

pub select-AreAmong :
    (events : List Event) (selector : Selector)
    → AreAmong (select_calendar_events events selector).0 (event_matches_selector selector) events
unfolding select_calendar_events
select-AreAmong events selector p h =
    sym (any-filter p (event_matches_selector selector) events)
    ∙ any-choose_candidates p (ordinal_of selector)
        (filter (event_matches_selector selector) events) h

pub select-several :
    (events : List Event) (selector : Selector)
    → (select_calendar_events events selector).1 ≡ true
    → leb 2 (length (select_calendar_events events selector).0) ≡ true
    → mem (ordinal_of selector) all_names ≡ true
unfolding select_calendar_events
select-several events selector =
    several-choose_candidates (ordinal_of selector)
      (filter (event_matches_selector selector) events)
