-- ===== src/Resolution/Updates.antt =====
-- What `resolve_updates` of src/mini_rag/capabilities/calendar/resolver.py makes of an update whose
-- event is not known.
use mini_enterprise_rag_agen.Common.{
  ℕ, String, ◌≡◌, refl, sym, subst, Bool, true, false, ◌&&◌, ◌||◌, not, some, List, [], ◌∷◌, leb,
  eqb, mem, any, any_weaken, All, length, arith, Bool-cases, inl, inr, lookup, Dict,
}
use mini_enterprise_rag_agen.Tools.Calendar.{Event}
use mini_enterprise_rag_agen.Planning.EventId.{is_unresolved_calendar_event_id}
use mini_enterprise_rag_agen.Resolution.Selector.{
  WriteTask, event_matches_selector, ordinal_of, all_names, select_calendar_events, tool_input_of,
}
use mini_enterprise_rag_agen.Resolution.Choice.{AreAmong, select-AreAmong, select-several}
use mini_enterprise_rag_agen.Resolution.Resolver.{
  Source, Resolution, queued, expanded, reported, selector_of, is_write_task,
  flatten_calendar_update_fields, update_choice, update_selected, resolve_update,
}
use mini_enterprise_rag_agen.Resolution.Writes.{is_written, update_each-written, length-update_each}

-- The event is the only one of the query and has a real id, or it fits the selector that the task is
-- resolved with.
abbrev pub is_update_meant : WriteTask → Source → Event → Bool
is_update_meant flat source e =
    (eqb (length source.events) 1 && not (is_unresolved_calendar_event_id (lookup "event_id" e)))
    || event_matches_selector (selector_of flat source) e

module _ (str : ℕ → String) (flat : WriteTask) (source : Source) where
  -- The choice among the events of a query.
  IsMeantChoice : List Event × Bool → Type 0
  IsMeantChoice chosen =
      AreAmong chosen.0 (is_update_meant flat source) source.events
      × (chosen.1 ≡ true
          → leb 2 (length chosen.0) ≡ true
          → mem (ordinal_of (selector_of flat source)) all_names ≡ true)

  selected-IsMeantChoice :
      IsMeantChoice (select_calendar_events source.events (selector_of flat source))
  unfolding IsMeantChoice
  selected-IsMeantChoice = (
    λ p h.
        any_weaken (λ e. event_matches_selector (selector_of flat source) e && p e)
          (λ e. is_update_meant flat source e && p e) source.events
          (λ e found. ground (arith, found))
          (select-AreAmong source.events (selector_of flat source) p h),
    select-several source.events (selector_of flat source),
  )

  abbrev Fine : Resolution → Type 0
  Fine (queued tasks) = Unit
  Fine (expanded tasks) =
      All (λ t'. is_written (is_update_meant flat source) source.events t' ≡ true) tasks
      × (leb 2 (length tasks) ≡ true → mem (ordinal_of (selector_of flat source)) all_names ≡ true)
  Fine (reported status) = Unit

  Fine-update_selected :
      (chosen : List Event) (safe : Bool)
      → IsMeantChoice (chosen, safe)
      → Fine (update_selected str flat source (chosen, safe))
  unfolding update_selected IsMeantChoice
  Fine-update_selected [] safe choice = tt
  Fine-update_selected (e ∷ chosen) false choice = tt
  Fine-update_selected (e ∷ chosen) true choice = (
    update_each-written str flat source 1 (e ∷ chosen) (is_update_meant flat source) source.events
        choice.0,
    λ h.
        choice.1 refl
          (subst (λ n. leb 2 n ≡ true) (length-update_each str flat source 1 (e ∷ chosen)) h),
  )

abbrev source_of : Dict String → List Event → Source
source_of input events = record { tool_input = input; events = events }

untrusted :
    (str : ℕ → String) (flat : WriteTask) (source : Source) (e : Event)
    → is_unresolved_calendar_event_id (lookup "event_id" e) ≡ true
    → update_choice str flat source (e ∷ [])
      ≡ select_calendar_events (e ∷ []) (selector_of flat source)
unfolding update_choice
untrusted str flat source e unresolved = rw (update_choice, unresolved) refl

choice-IsMeantChoice :
    (str : ℕ → String) (flat : WriteTask) (input : Dict String) (events : List Event)
    → IsMeantChoice str flat
        (source_of input events)
        (update_choice str flat (source_of input events) events)
unfolding update_choice IsMeantChoice any
choice-IsMeantChoice str flat input [] = selected-IsMeantChoice str flat (source_of input [])
choice-IsMeantChoice str flat input (e ∷ []) =
    elim (Bool-cases (is_unresolved_calendar_event_id (lookup "event_id" e))) [
      | inl unresolved ↦
          subst (IsMeantChoice str flat (source_of input (e ∷ [])))
            (sym (untrusted str flat (source_of input (e ∷ [])) e unresolved))
            (selected-IsMeantChoice str flat (source_of input (e ∷ [])))
      | inr resolved ↦
          rw (update_choice, resolved) (λ p h. ground (arith, resolved, h), λ safe several. cc)
    ]
choice-IsMeantChoice str flat input (e ∷ (f ∷ events)) =
    selected-IsMeantChoice str flat (source_of input (e ∷ (f ∷ events)))

Fine-resolve_update :
    (str : ℕ → String) (t : WriteTask) (source : Source)
    → Fine str (flatten_calendar_update_fields str t) source (resolve_update str t (some source))
unfolding resolve_update
Fine-resolve_update str t source =
    let flat = flatten_calendar_update_fields str t in
    elim (Bool-cases (is_write_task "update" t)) [
      | inr other ↦ rw (resolve_update, other) tt
      | inl update ↦
          elim (Bool-cases
            (is_unresolved_calendar_event_id (lookup "event_id" (tool_input_of flat)))) [
              | inr known ↦ rw (resolve_update, update, known) tt
              | inl unknown ↦
                  rw (resolve_update, update, unknown)
                    (Fine-update_selected str flat source _ _
                      (choice-IsMeantChoice str flat source.tool_input source.events))
            ]
    ]

-- An update whose event is not known is carried out only on events that the query found and that are
-- the only one, with a real id, or fit the task's selector, and on several events only where the
-- selector asks for all.
pub resolve_update-expanded :
    (str : ℕ → String) (t : WriteTask) (source : Source) (tasks : List WriteTask)
    → resolve_update str t (some source) ≡ expanded tasks
    → All
        (λ t'.
          is_written
            (is_update_meant (flatten_calendar_update_fields str t) source)
            source.events
            t'
          ≡ true)
        tasks
      × (leb 2 (length tasks) ≡ true
          → mem (ordinal_of (selector_of (flatten_calendar_update_fields str t) source)) all_names
            ≡ true)
resolve_update-expanded str t source tasks e =
    subst (Fine str (flatten_calendar_update_fields str t) source) e
      (Fine-resolve_update str t source)
