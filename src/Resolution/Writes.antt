-- ===== src/Resolution/Writes.antt =====
-- The tasks that src/mini_rag/capabilities/calendar/resolver.py writes for the selected events.
use mini_enterprise_rag_agen.Common.{
  ℕ, ◌+◌, suc, String, ◌≡◌, refl, ap, Bool, true, ◌&&◌, some, List, [], ◌∷◌, ◌==◌, text_or, any,
  All, arith, Bool-cases, inl, inr, eq_iff, eq_refl, Dict, lookup, insert, lookup-insert, is_some,
  length,
}
use mini_enterprise_rag_agen.Tools.Calendar.{Event, get_or}
use mini_enterprise_rag_agen.Resolution.Selector.{WriteTask, put_default, tool_input_of}
use mini_enterprise_rag_agen.Resolution.Choice.{AreAmong}
use mini_enterprise_rag_agen.Resolution.Resolver.{
  Source, event_id_of, kept_input, write_input, delete_one, delete_each, update_dropped, update_one,
  update_each,
}

-- The event id that the task writes.
abbrev pub written_id : WriteTask → String
written_id t = get_or "event_id" "" (tool_input_of t)

-- The task writes one of the events, and that event passes the test.
abbrev pub is_written : (Event → Bool) → List Event → WriteTask → Bool
is_written test events t = any (λ e. test e && written_id t == event_id_of e) events

lookup-put_default :
    (v : String) (d : Dict String)
    → lookup "event_id" (put_default "file_path" v d) ≡ lookup "event_id" d
unfolding put_default
lookup-put_default v d = elim (Bool-cases (is_some (lookup "file_path" d))) [
  | inl there ↦ rw (put_default, there) refl
  | inr missing ↦ rw (put_default, missing) (lookup-insert "file_path" "event_id" v d)
]

text_or_empty : (x : String) → text_or (some x) "" ≡ x
text_or_empty x = ground (arith, eq_iff x "")

module _ (str : ℕ → String) where
  write_input-id :
      (action : String) (dropped : List String) (t : WriteTask) (source : Source) (e : Event)
      → get_or "event_id" "" (write_input str action dropped t source e) ≡ event_id_of e
  unfolding write_input
  write_input-id action dropped t source e =
      let input = insert "action" action (kept_input dropped (tool_input_of t)) in
      let written : lookup "event_id" (insert "event_id" (event_id_of e) input)
          ≡ some (event_id_of e) =
        lookup-insert "event_id" "event_id" (event_id_of e) input in
      elim (Bool-cases (
        text_or (lookup "file_path" (tool_input_of t)) (get_or "file_path" "" source.tool_input)
        == "")) [
          | inl unset ↦ rw (write_input, unset, written) (text_or_empty (event_id_of e))
          | inr set ↦
              rw
                (
                  write_input,
                  set,
                  lookup-put_default _ (insert "event_id" (event_id_of e) input),
                  written,
                )
                (text_or_empty (event_id_of e))
        ]

  pub length-delete_each :
      (t : WriteTask) (source : Source) (n : ℕ) (events : List Event)
      → length (delete_each str t source n events) ≡ length events
  unfolding delete_each
  length-delete_each t source n [] = refl
  length-delete_each t source n (e ∷ events) = ap suc (length-delete_each t source (n + 1) events)

  pub delete_each-written :
      (t : WriteTask) (source : Source) (n : ℕ) (chosen : List Event) (test : Event → Bool)
      (events : List Event)
      → AreAmong chosen test events
      → All (λ t'. is_written test events t' ≡ true) (delete_each str t source n chosen)
  unfolding delete_each delete_one any
  delete_each-written t source n [] test events among = tt
  delete_each-written t source n (e ∷ chosen) test events among = (
    rw (write_input-id "delete" ("event_id" ∷ "event_ids" ∷ []) t source e)
        (among (λ x. event_id_of e == event_id_of x) (ground (arith, eq_refl (event_id_of e)))),
    delete_each-written t source (n + 1) chosen test events (λ p h. among p (ground (arith, h))),
  )

  pub length-update_each :
      (t : WriteTask) (source : Source) (n : ℕ) (events : List Event)
      → length (update_each str t source n events) ≡ length events
  unfolding update_each
  length-update_each t source n [] = refl
  length-update_each t source n (e ∷ events) = ap suc (length-update_each t source (n + 1) events)

  pub update_each-written :
      (t : WriteTask) (source : Source) (n : ℕ) (chosen : List Event) (test : Event → Bool)
      (events : List Event)
      → AreAmong chosen test events
      → All (λ t'. is_written test events t' ≡ true) (update_each str t source n chosen)
  unfolding update_each update_one any
  update_each-written t source n [] test events among = tt
  update_each-written t source n (e ∷ chosen) test events among = (
    rw (write_input-id "update" (update_dropped str) t source e)
        (among (λ x. event_id_of e == event_id_of x) (ground (arith, eq_refl (event_id_of e)))),
    update_each-written t source (n + 1) chosen test events (λ p h. among p (ground (arith, h))),
  )
