-- ===== src/Resolution/Deletes.antt =====
-- What `resolve_deletes` of src/mini_rag/capabilities/calendar/resolver.py makes of a deletion whose
-- event is not known.
use mini_enterprise_rag_agen.Common.{
  ℕ, String, ◌≡◌, refl, ◌∙◌, sym, subst, Bool, true, false, ◌&&◌, ◌||◌, not, some, List, [], ◌∷◌,
  ◌==◌, if◌then◌else◌, leb, mem, any-filter, any_weaken, All, is_empty, length, arith, Bool-cases,
  inl, inr, lookup,
}
use mini_enterprise_rag_agen.Tools.Calendar.{Event}
use mini_enterprise_rag_agen.Planning.EventId.{is_unresolved_calendar_event_id}
use mini_enterprise_rag_agen.Resolution.Selector.{
  WriteTask, is_no_selector, event_matches_selector, ordinal_of, all_names, select_calendar_events,
  calendar_all_selector_requested, tool_input_of,
}
use mini_enterprise_rag_agen.Resolution.Choice.{AreAmong, select-AreAmong, select-several}
use mini_enterprise_rag_agen.Resolution.Resolver.{
  Source, Resolution, queued, expanded, reported, event_id_of, selector_of, is_write_task,
  identified, delete_events, delete_selected, resolve_delete,
}
use mini_enterprise_rag_agen.Resolution.Writes.{is_written, delete_each-written, length-delete_each}

-- The event has an id and fits the selector that the task is resolved with, if there is one.
abbrev pub is_meant : WriteTask → Source → Event → Bool
is_meant t source e =
    not (event_id_of e == "")
    && (is_no_selector (selector_of t source) || event_matches_selector (selector_of t source) e)

-- The task asks for all events.
abbrev pub is_all_asked : WriteTask → Source → Bool
is_all_asked t source =
    if is_no_selector (selector_of t source)
    then calendar_all_selector_requested t
    else mem (ordinal_of (selector_of t source)) all_names

several-nonempty : (events : List Event) → leb 2 (length events) ≡ true → is_empty events ≡ false
several-nonempty [] h = cc
several-nonempty (e ∷ events) h = refl

module _ (str : ℕ → String) (t : WriteTask) (source : Source) where
  abbrev Meant : List WriteTask → Type 0
  Meant tasks =
      All (λ t'. is_written (is_meant t source) source.events t' ≡ true) tasks
      × (leb 2 (length tasks) ≡ true → is_all_asked t source ≡ true)

  abbrev Fine : Resolution → Type 0
  Fine (queued tasks) = Unit
  Fine (expanded tasks) = Meant tasks
  Fine (reported status) = Unit

  Fine-delete_events :
      (chosen : List Event)
      → AreAmong chosen (is_meant t source) source.events
      → (leb 2 (length chosen) ≡ true → is_all_asked t source ≡ true)
      → Fine (delete_events str t source chosen)
  unfolding delete_events
  Fine-delete_events [] among several = tt
  Fine-delete_events (e ∷ chosen) among several = (
    delete_each-written str t source 1 (e ∷ chosen) (is_meant t source) source.events among,
    λ h. several (subst (λ n. leb 2 n ≡ true) (length-delete_each str t source 1 (e ∷ chosen)) h),
  )

  among_identified :
      (chosen : List Event) (test : Event → Bool)
      → ((e : Event) → (not (event_id_of e == "") && test e) ≡ true → is_meant t source e ≡ true)
      → AreAmong chosen test (identified str source)
      → AreAmong chosen (is_meant t source) source.events
  among_identified chosen test fits among p h =
      any_weaken (λ e. not (event_id_of e == "") && (test e && p e))
        (λ e. is_meant t source e && p e) source.events (λ e found. ground (arith, fits e))
        (sym (any-filter (λ e. test e && p e) (λ e. not (event_id_of e == "")) source.events)
          ∙ among p h)

  -- Without a selector all events of the query are meant.
  Fine-plain :
      is_no_selector (selector_of t source) ≡ true
      → (leb 2 (length (identified str source)) && not (calendar_all_selector_requested t)) ≡ false
      → Fine (delete_events str t source (identified str source))
  Fine-plain none_given few =
      Fine-delete_events (identified str source)
        (among_identified (identified str source) (λ e. true)
          (λ e fits. ground (arith, none_given, fits)) (λ p h. h))
        (λ several. ground (arith, none_given, few, several))

  Fine-selected :
      is_no_selector (selector_of t source) ≡ false
      → Fine (
          delete_selected str t source
            (select_calendar_events (identified str source) (selector_of t source)))
  unfolding delete_selected
  Fine-selected given =
      let chosen = select_calendar_events (identified str source) (selector_of t source) in
      elim (Bool-cases (not (is_empty chosen.0) && not chosen.1)) [
        | inl unsafe ↦ rw (delete_selected, unsafe) tt
        | inr safe ↦
            rw (delete_selected, safe)
              (Fine-delete_events chosen.0
                (among_identified chosen.0 (event_matches_selector (selector_of t source))
                  (λ e fits. ground (arith, given, fits))
                  (select-AreAmong (identified str source) (selector_of t source)))
                (λ several. ground (
                  arith,
                  given,
                  safe,
                  several,
                  several-nonempty chosen.0 several,
                  select-several (identified str source) (selector_of t source),
                )))
      ]

  Fine-resolve_delete : Fine (resolve_delete str t (some source))
  unfolding resolve_delete
  Fine-resolve_delete = elim (Bool-cases (is_write_task "delete" t)) [
    | inr other ↦ rw (resolve_delete, other) tt
    | inl deletion ↦
        elim (Bool-cases (is_unresolved_calendar_event_id (lookup "event_id" (tool_input_of t)))) [
          | inr known ↦ rw (resolve_delete, deletion, known) tt
          | inl unknown ↦ elim (Bool-cases (is_no_selector (selector_of t source))) [
            | inl none_given ↦
                elim (Bool-cases (
                  leb 2 (length (identified str source))
                  && not (calendar_all_selector_requested t))) [
                    | inl many ↦ rw (resolve_delete, deletion, unknown, none_given, many) tt
                    | inr few ↦
                        rw (resolve_delete, deletion, unknown, none_given, few)
                          (Fine-plain none_given few)
                  ]
            | inr given ↦ rw (resolve_delete, deletion, unknown, given) (Fine-selected given)
          ]
        ]
  ]

-- A deletion whose event is not known is carried out only on events that the query found, that have
-- an id and that fit the task's selector, and on several events only where the task asks for all.
pub resolve_delete-expanded :
    (str : ℕ → String) (t : WriteTask) (source : Source) (tasks : List WriteTask)
    → resolve_delete str t (some source) ≡ expanded tasks
    → All (λ t'. is_written (is_meant t source) source.events t' ≡ true) tasks
      × (leb 2 (length tasks) ≡ true → is_all_asked t source ≡ true)
resolve_delete-expanded str t source tasks e =
    subst (Fine str t source) e (Fine-resolve_delete str t source)
