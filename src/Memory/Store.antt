-- ===== src/Memory/Store.antt =====
-- src/mini_rag/agent/context_store.py: the tables `sessions` and `turns` and the methods of
-- `SQLiteContextStore`. A JSON column holds the value that was dumped into it; `S` and `R` are the
-- types of a source and of a trace. The clock is an argument.
pub mod Recent
pub mod Refinement
use mini_enterprise_rag_agen.Common.{
  ℕ, zero, suc, ◌+◌, String, Bool, true, false, ◌&&◌, not, Option, none, some, List, [], ◌∷◌, ◌++◌,
  map, ◌==◌, leb, if◌then◌else◌, text_or, filter, take, Dict, lookup, insert,
}

pub record Turn (S R : Type 0) : Type 0 where
  pub question : String
  pub answer : String
  pub standalone_query : String
  pub memory_answer : String
  pub intent : String
  pub topic : String
  pub entities : List String
  pub sources : List S
  pub trace : R
  pub created_at : ℕ

pub record TurnRow (S R : Type 0) : Type 0 where
  pub id : ℕ
  pub session_id : String
  pub turn : Turn S R

pub record Session : Type 0 where
  pub summary : String
  pub updated_at : ℕ

-- `next_id` is the counter of AUTOINCREMENT.
pub record ContextDb (S R : Type 0) : Type 0 where
  pub sessions : Dict Session
  pub turns : List (TurnRow S R)
  pub next_id : ℕ

pub record Context (S R : Type 0) : Type 0 where
  pub session_id : Option String
  pub summary : String
  pub turns : List (Turn S R)

-- The session id of a call that is not anonymous.
unfoldable pub named : Option String → Option String
named none = none
named (some session_id) = if session_id == "" then none else some session_id

abbrev pub summary_of : Option Session → String
summary_of none = ""
summary_of (some s) = s.summary

abbrev pub reversed : {A : Type 0} → List A → List A
reversed [] = []
reversed (x ∷ xs) = reversed xs ++ x ∷ []

module _ {S R : Type 0} where
  -- ORDER BY id DESC.
  unfoldable pub insert_desc : TurnRow S R → List (TurnRow S R) → List (TurnRow S R)
  insert_desc r [] = r ∷ []
  insert_desc r (q ∷ rows) =
      let rest = insert_desc r rows in if leb q.id r.id then r ∷ (q ∷ rows) else q ∷ rest

  unfoldable pub order_desc : List (TurnRow S R) → List (TurnRow S R)
  order_desc [] = []
  order_desc (r ∷ rows) = insert_desc r (order_desc rows)

  -- SELECT … WHERE session_id = ? ORDER BY id DESC LIMIT ?
  unfoldable pub select_turns : String → ℕ → List (TurnRow S R) → List (TurnRow S R)
  select_turns session_id max_turns rows =
      take max_turns (order_desc (filter (λ (r : TurnRow S R). r.session_id == session_id) rows))

  unfoldable pub read_context : ContextDb S R → String → ℕ → Context S R
  read_context db session_id max_turns = record {
    session_id = some session_id;
    summary = summary_of (lookup session_id db.sessions);
    turns =
        map (λ (r : TurnRow S R). r.turn) (reversed (select_turns session_id max_turns db.turns));
  }

  unfoldable pub get_context : ContextDb S R → Option String → ℕ → Context S R
  get_context db session_id max_turns = elim (named session_id) [
    | none ↦ record { session_id = none; summary = ""; turns = [] }
    | some name ↦ read_context db name max_turns
  ]

  unfoldable pub update_summary : ContextDb S R → Option String → String → ℕ → ContextDb S R
  update_summary db session_id summary now = elim (named session_id) [
    | none ↦ db
    | some name ↦ record db {
      sessions = insert name (record { summary = summary; updated_at = now }) db.sessions;
    }
  ]

  unfoldable pub insert_turn : ContextDb S R → String → Turn S R → ContextDb S R
  insert_turn db session_id turn = record db {
    turns = db.turns ++ record { id = db.next_id; session_id = session_id; turn = turn } ∷ [];
    next_id = db.next_id + 1;
  }

  -- `now` is the clock of the summary; the turn carries its own.
  unfoldable pub append_turn : ContextDb S R → Option String → Turn S R → ℕ → ContextDb S R
  append_turn db session_id turn now = elim (named session_id) [
    | none ↦ db
    | some name ↦
        insert_turn (update_summary db session_id (get_context db session_id 0).summary now) name
          turn
  ]
