-- ===== src/Memory/Store/Refinement.antt =====
-- The contract of `SQLiteContextStore` in src/mini_rag/agent/context_store.py: for each session a
-- summary and the turns from old to new.
use mini_enterprise_rag_agen.Common.{
  ℕ, zero, suc, String, ◌≡◌, refl, ap, ◌∙◌, Option, none, some, List, [], ◌∷◌, ◌++◌, map, ◌==◌,
  if◌then◌else◌, Bool-cases, Option-cases, inl, inr, filter, take, lookup, insert, lookup-insert,
  eq_iff,
}
use mini_enterprise_rag_agen.Memory.Store.{
  Turn, TurnRow, ContextDb, Context, named, summary_of, reversed, order_desc, select_turns,
  read_context, get_context, update_summary, insert_turn, append_turn,
}
use mini_enterprise_rag_agen.Memory.Store.Recent.{
  IsFresh, insert_turn-IsFresh, order_desc_snoc, filter_other, map_snoc,
}

reversed_snoc : {A : Type 0} (xs : List A) (x : A) → reversed (xs ++ x ∷ []) ≡ x ∷ reversed xs
reversed_snoc [] x = refl
reversed_snoc (y ∷ ys) x = ap (λ l. l ++ y ∷ []) (reversed_snoc ys x)

map-reversed : {A B : Type 0} (f : A → B) (xs : List A) → map f (reversed xs) ≡ reversed (map f xs)
map-reversed f [] = refl
map-reversed f (x ∷ xs) = map_snoc f (reversed xs) x ∙ ap (λ l. l ++ f x ∷ []) (map-reversed f xs)

map-take : {A B : Type 0} (f : A → B) (n : ℕ) (xs : List A) → map f (take n xs) ≡ take n (map f xs)
map-take f zero xs = refl
map-take f (suc n) [] = refl
map-take f (suc n) (x ∷ xs) = ap (λ l. f x ∷ l) (map-take f n xs)

-- A writing call of the store, with its session id and its clock.
pub data Write (S R : Type 0) : Type 0 where
  summarise : Option String → String → ℕ → Write S R
  remember : Option String → Turn S R → ℕ → Write S R

pub record Memory (S R : Type 0) : Type 0 where
  pub summary : String
  pub turns : List (Turn S R)

-- What each session remembers.
abbrev pub Sessions : Type 0 → Type 0 → Type 0
Sessions S R = String → Memory S R

module _ {S R : Type 0} where
  unfoldable pub write : ContextDb S R → Write S R → ContextDb S R
  write db (summarise session_id summary now) = update_summary db session_id summary now
  write db (remember session_id turn now) = append_turn db session_id turn now

  unfoldable pub write_all : ContextDb S R → List (Write S R) → ContextDb S R
  write_all db [] = db
  write_all db (w ∷ writes) = write_all (write db w) writes

  abbrev pub empty_db : ContextDb S R
  empty_db = record { sessions = []; turns = []; next_id = 1 }

  abbrev pub nothing_remembered : Sessions S R
  nothing_remembered name = record { summary = ""; turns = [] }

  -- One session is changed.
  abbrev pub at : Option String → (Memory S R → Memory S R) → Sessions S R → Sessions S R
  at none change memories = memories
  at (some name) change memories =
      λ other. if name == other then change (memories other) else memories other

  unfoldable pub replay : Sessions S R → List (Write S R) → Sessions S R
  replay memories [] = memories
  replay memories (summarise session_id summary now ∷ writes) =
      replay (at (named session_id) (λ m. record m { summary = summary }) memories) writes
  replay memories (remember session_id turn now ∷ writes) =
      replay (at (named session_id) (λ m. record m { turns = m.turns ++ turn ∷ [] }) memories)
        writes

  -- The last `n` turns.
  abbrev pub last_turns : ℕ → List (Turn S R) → List (Turn S R)
  last_turns n turns = reversed (take n (reversed turns))

  abbrev pub context_of : Sessions S R → Option String → ℕ → Context S R
  context_of memories none n = record { session_id = none; summary = ""; turns = [] }
  context_of memories (some name) n = record {
    session_id = some name;
    summary = (memories name).summary;
    turns = last_turns n (memories name).turns;
  }

  abbrev rows_of : String → ContextDb S R → List (TurnRow S R)
  rows_of name db = order_desc (filter (λ (r : TurnRow S R). r.session_id == name) db.turns)

  abbrev turn_in : TurnRow S R → Turn S R
  turn_in r = r.turn

  -- The database holds what the sessions remember.
  record Holds (db : ContextDb S R) (memories : Sessions S R) : Type 0 where
    fresh : IsFresh db
    summaries : (name : String) → summary_of (lookup name db.sessions) ≡ (memories name).summary
    kept : (name : String) → map turn_in (rows_of name db) ≡ reversed (memories name).turns

  get_context-Holds :
      (db : ContextDb S R) (memories : Sessions S R) (session_id : Option String) (n : ℕ)
      → Holds db memories
      → get_context db session_id n ≡ context_of memories (named session_id) n
  unfolding get_context read_context select_turns
  get_context-Holds db memories session_id n h = elim (Option-cases (named session_id)) [
    | inl anonymous ↦ rw (get_context, anonymous) refl
    | inr (name, proper) ↦
        rw
          (
            get_context,
            proper,
            h.summaries name,
            map-reversed turn_in (take n (rows_of name db)),
            map-take turn_in n (rows_of name db),
            h.kept name,
          )
          refl
  ]

  summary-Holds :
      (db : ContextDb S R) (memories : Sessions S R) (name summary : String) (now : ℕ)
      → Holds db memories
      → Holds
          (record db {
            sessions = insert name (record { summary = summary; updated_at = now }) db.sessions;
          })
          (at (some name) (λ m. record m { summary = summary }) memories)
  summary-Holds db memories name summary now h = record {
    fresh = h.fresh;
    summaries = λ other. elim (Bool-cases (name == other)) [
      | inl own ↦ rw (lookup-insert name other _ db.sessions, own) refl
      | inr another ↦ rw (lookup-insert name other _ db.sessions, another) (h.summaries other)
    ];
    kept = λ other. elim (Bool-cases (name == other)) [
      | inl own ↦ rw own (h.kept other)
      | inr another ↦ rw another (h.kept other)
    ];
  }

  turn-Holds :
      (db : ContextDb S R) (memories : Sessions S R) (name : String) (turn : Turn S R)
      → Holds db memories
      → Holds
          (insert_turn db name turn)
          (at (some name) (λ m. record m { turns = m.turns ++ turn ∷ [] }) memories)
  unfolding insert_turn
  turn-Holds db memories name turn h =
      let row : TurnRow S R = record { id = db.next_id; session_id = name; turn = turn } in
      record {
        fresh = insert_turn-IsFresh db name turn h.fresh;
        summaries = λ other. elim (Bool-cases (name == other)) [
          | inl own ↦ rw own (h.summaries other)
          | inr another ↦ rw another (h.summaries other)
        ];
        kept = λ other. elim (Bool-cases (name == other)) [
          | inl own ↦
              rw
                (
                  own,
                  order_desc_snoc other row db.turns h.fresh ((eq_iff name other).0 own),
                  reversed_snoc (memories other).turns turn,
                )
                (ap (λ l. turn ∷ l) (h.kept other))
          | inr another ↦ rw (another, filter_other other row db.turns another) (h.kept other)
        ];
      }

  -- The summary is written again as it was.
  summary_again-Holds :
      (db : ContextDb S R) (memories : Sessions S R) (name summary : String) (now : ℕ)
      → summary ≡ (memories name).summary
      → Holds db memories
      → Holds
          (record db {
            sessions = insert name (record { summary = summary; updated_at = now }) db.sessions;
          })
          memories
  summary_again-Holds db memories name summary now same h = record {
    fresh = h.fresh;
    summaries = λ other. elim (Bool-cases (name == other)) [
      | inl own ↦
          rw (lookup-insert name other _ db.sessions, own)
            (same ∙ ap (λ x. (memories x).summary) ((eq_iff name other).0 own))
      | inr another ↦ rw (lookup-insert name other _ db.sessions, another) (h.summaries other)
    ];
    kept = h.kept;
  }

  write-Holds :
      (db : ContextDb S R) (memories : Sessions S R) (w : Write S R)
      → Holds db memories
      → Holds (write db w) (replay memories (w ∷ []))
  unfolding write replay update_summary append_turn get_context read_context
  write-Holds db memories (summarise session_id summary now) h =
      elim (Option-cases (named session_id)) [
        | inl anonymous ↦ rw (write, replay, update_summary, anonymous) h
        | inr (name, proper) ↦
            rw (write, replay, update_summary, proper)
              (summary-Holds db memories name summary now h)
      ]
  write-Holds db memories (remember session_id turn now) h =
      elim (Option-cases (named session_id)) [
        | inl anonymous ↦ rw (write, replay, append_turn, anonymous) h
        | inr (name, proper) ↦
            rw (write, replay, append_turn, proper, update_summary, proper, get_context, proper)
              (turn-Holds _ memories name turn
                (summary_again-Holds db memories name _ now (h.summaries name) h))
      ]

  write_all-Holds :
      (writes : List (Write S R)) (db : ContextDb S R) (memories : Sessions S R)
      → Holds db memories
      → Holds (write_all db writes) (replay memories writes)
  unfolding write_all replay
  write_all-Holds [] db memories h = h
  write_all-Holds (summarise session_id summary now ∷ writes) db memories h =
      write_all-Holds writes _ _ (write-Holds db memories (summarise session_id summary now) h)
  write_all-Holds (remember session_id turn now ∷ writes) db memories h =
      write_all-Holds writes _ _ (write-Holds db memories (remember session_id turn now) h)

  empty-Holds : Holds empty_db nothing_remembered
  unfolding order_desc filter lookup
  empty-Holds = record { fresh = tt; summaries = λ name. refl; kept = λ name. refl }

  -- After any writes to an empty database, the context of any session is the summary written last
  -- for it with the last turns remembered for it, from old to new; an anonymous call reads nothing.
  pub get_context-replay :
      (writes : List (Write S R)) (session_id : Option String) (n : ℕ)
      → get_context (write_all empty_db writes) session_id n
        ≡ context_of (replay nothing_remembered writes) (named session_id) n
  get_context-replay writes session_id n =
      get_context-Holds _ _ session_id n
        (write_all-Holds writes empty_db nothing_remembered empty-Holds)
