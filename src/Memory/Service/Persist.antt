-- ===== src/Memory/Service/Persist.antt =====
-- What `MemoryService.update_memory` of src/mini_rag/memory/service.py leaves in the context store.
use mini_enterprise_rag_agen.Common.{
  ℕ, suc, String, ◌≡◌, refl, ap, ◌∙◌, sym, true, false, Option, none, some, List, [], ◌∷◌, ◌++◌,
  ◌==◌, arith, Bool-cases, inl, inr, lookup, insert, lookup-insert, eq_refl,
}
use mini_enterprise_rag_agen.Memory.Store.{
  Turn, Session, ContextDb, Context, named, summary_of, read_context, get_context, update_summary,
  insert_turn, append_turn,
}
use mini_enterprise_rag_agen.Memory.Store.Recent.{
  IsFresh, read_context-insert_turn, read_context-insert_turn_other, insert_turn-IsFresh,
}
use mini_enterprise_rag_agen.Memory.Service.{
  MemoryState, MemoryUpdate, MemoryCallbacks, turn_of, persist, updated, update_memory,
}

named_lem : (name : String) → (name == "") ≡ false → named (some name) ≡ some name
unfolding named
named_lem name h = rw h refl

lookup-insert_same :
    (name : String) (v : Session) (d : List (String × Session))
    → lookup name (insert name v d) ≡ some v
lookup-insert_same name v d = lookup-insert name name v d ∙ ground (arith, eq_refl name)

lookup-insert_other :
    (name other : String) (v : Session) (d : List (String × Session))
    → (name == other) ≡ false
    → lookup other (insert name v d) ≡ lookup other d
lookup-insert_other name other v d h = lookup-insert name other v d ∙ ground arith

module _ {S R : Type 0} where
  -- The sessions table with the summary written twice.
  abbrev summarised : ContextDb S R → String → String → ℕ → ℕ → ContextDb S R
  summarised db name summary now soon = record db {
    sessions =
        insert name (record { summary = summary; updated_at = soon })
          (insert name (record { summary = summary; updated_at = now }) db.sessions);
  }

  get_context-named :
      (db : ContextDb S R) (sid : Option String) (name : String) (n : ℕ)
      → named sid ≡ some name
      → get_context db sid n ≡ read_context db name n
  unfolding get_context
  get_context-named db sid name n e = rw (get_context, e) refl

  context_anonymous :
      (d d' : ContextDb S R) (name : String) (n : ℕ)
      → (name == "") ≡ true
      → get_context d (some name) n ≡ get_context d' (some name) n
  unfolding get_context named
  context_anonymous d d' name n e = rw (get_context, named, e) refl

  update_summary-named :
      (db : ContextDb S R) (sid : Option String) (name summary : String) (now : ℕ)
      → named sid ≡ some name
      → update_summary db sid summary now ≡ record db {
        sessions = insert name (record { summary = summary; updated_at = now }) db.sessions;
      }
  unfolding update_summary
  update_summary-named db sid name summary now e = rw (update_summary, e) refl

  summary-update_summary :
      (db : ContextDb S R) (sid : Option String) (name summary : String) (now : ℕ)
      → named sid ≡ some name
      → (get_context (update_summary db sid summary now) sid 0).summary ≡ summary
  unfolding read_context
  summary-update_summary db sid name summary now e =
      rw
        (
          get_context-named (update_summary db sid summary now) sid name 0 e,
          update_summary-named db sid name summary now e,
        )
        (ap summary_of
          (lookup-insert_same name (record { summary = summary; updated_at = now }) db.sessions))

  append_turn-update_summary :
      (db : ContextDb S R) (sid : Option String) (name summary : String) (turn : Turn S R)
      (now soon : ℕ)
      → named sid ≡ some name
      → append_turn (update_summary db sid summary now) sid turn soon
        ≡ insert_turn (summarised db name summary now soon) name turn
  unfolding append_turn
  append_turn-update_summary db sid name summary turn now soon e =
      rw (append_turn, e, summary-update_summary db sid name summary now e)
        (ap (λ d. insert_turn d name turn)
          (update_summary-named (update_summary db sid summary now) sid name summary soon e
            ∙ rw (update_summary-named db sid name summary now e) refl))

  context-summarised :
      (db : ContextDb S R) (name summary : String) (turn : Turn S R) (now soon n : ℕ)
      → IsFresh db
      → read_context (insert_turn (summarised db name summary now soon) name turn) name (suc n)
        ≡ record {
          session_id = some name;
          summary = summary;
          turns = (read_context db name n).turns ++ turn ∷ [];
        }
  unfolding read_context insert_turn
  context-summarised db name summary turn now soon n fresh =
      rw
        (lookup-insert_same name (record { summary = summary; updated_at = soon })
          (insert name (record { summary = summary; updated_at = now }) db.sessions))
        (ap
          (λ turns.
            let c : Context S R = record {
              session_id = some name;
              summary = summary;
              turns = turns;
            } in
            c)
          (read_context-insert_turn (summarised db name summary now soon) name turn n fresh))

  other-summarised :
      (db : ContextDb S R) (name other summary : String) (turn : Turn S R) (now soon n : ℕ)
      → (name == other) ≡ false
      → read_context (insert_turn (summarised db name summary now soon) name turn) other n
        ≡ read_context db other n
  unfolding read_context
  other-summarised db name other summary turn now soon n h =
      read_context-insert_turn_other (summarised db name summary now soon) name other turn n h
      ∙ ap
          (λ o.
            let c : Context S R = record {
              session_id = some other;
              summary = summary_of o;
              turns = (read_context db other n).turns;
            } in
            c)
          (lookup-insert_other name other _ _ h ∙ lookup-insert_other name other _ db.sessions h)

module _ {S R X : Type 0} (env : MemoryCallbacks S R X) where
  persist_lem :
      (answer : String) (s : MemoryState S X) (update : MemoryUpdate) (db : ContextDb S R)
      (now soon later : ℕ) (name : String)
      → named s.session_id ≡ some name
      → persist env answer s update db now soon later
        ≡ insert_turn
            (summarised db name update.summary now soon)
            name
            (turn_of env answer s update later)
  unfolding persist
  persist_lem answer s update db now soon later name e =
      rw (persist, e)
        (append_turn-update_summary db s.session_id name update.summary
          (turn_of env answer s update later) now soon e)

  update_memory_lem :
      (state : MemoryState S X) (db : ContextDb S R) (now soon later : ℕ) (name : String)
      → (updated env state).0.session_id ≡ some name
      → (name == "") ≡ false
      → (update_memory env state db now soon later).1
        ≡ insert_turn
            (summarised db name (updated env state).1.summary now soon)
            name
            (turn_of env state.final_answer (updated env state).0 (updated env state).1 later)
  unfolding update_memory
  update_memory_lem state db now soon later name e h =
      persist_lem state.final_answer (updated env state).0 (updated env state).1 db now soon later
        name (ap named e ∙ named_lem name h)

  -- After a turn of a named session whose rows are older than the counter, the session's context of
  -- one turn more is the earlier context with the new turn at its end and the new summary, and the
  -- rows are again older than the counter.
  pub update_memory-get_context :
      (state : MemoryState S X) (db : ContextDb S R) (now soon later : ℕ) (name : String) (n : ℕ)
      → (updated env state).0.session_id ≡ some name
      → (name == "") ≡ false
      → IsFresh db
      → get_context (update_memory env state db now soon later).1 (some name) (suc n) ≡ record {
        session_id = some name;
        summary = (updated env state).1.summary;
        turns =
            (get_context db (some name) n).turns
            ++ turn_of env state.final_answer (updated env state).0 (updated env state).1 later
              ∷ [];
      }
        × IsFresh (update_memory env state db now soon later).1
  update_memory-get_context state db now soon later name n e h fresh =
      rw
        (
          update_memory_lem state db now soon later name e h,
          get_context-named _ (some name) name (suc n) (named_lem name h),
          get_context-named db (some name) name n (named_lem name h),
        )
        (
          context-summarised db name (updated env state).1.summary _ now soon n fresh,
          insert_turn-IsFresh (summarised db name (updated env state).1.summary now soon) name _
              fresh,
        )

  -- A turn of one session leaves every other session's context as it was.
  pub update_memory-other :
      (state : MemoryState S X) (db : ContextDb S R) (now soon later : ℕ) (name other : String)
      (n : ℕ)
      → (updated env state).0.session_id ≡ some name
      → (name == "") ≡ false
      → (name == other) ≡ false
      → get_context (update_memory env state db now soon later).1 (some other) n
        ≡ get_context db (some other) n
  update_memory-other state db now soon later name other n e h d = elim (Bool-cases (other == "")) [
    | inl anonymous ↦ context_anonymous _ db other n anonymous
    | inr proper ↦
        rw
          (
            update_memory_lem state db now soon later name e h,
            get_context-named _ (some other) other n (named_lem other proper),
          )
          (other-summarised db name other (updated env state).1.summary _ now soon n d
            ∙ sym (get_context-named db (some other) other n (named_lem other proper)))
  ]

  -- A turn of a state without a session id, or with an empty one, changes no row.
  pub update_memory-anonymous :
      (state : MemoryState S X) (db : ContextDb S R) (now soon later : ℕ)
      → named (updated env state).0.session_id ≡ none
      → (update_memory env state db now soon later).1 ≡ db
  unfolding update_memory persist
  update_memory-anonymous state db now soon later e = rw (update_memory, persist, e) refl
