-- ===== src/Memory/Store/Recent.antt =====
-- The context that `SQLiteContextStore` of src/mini_rag/agent/context_store.py reads after its
-- writes: the latest turns of the session, from old to new.
use mini_enterprise_rag_agen.Common.{
  ℕ, suc, ◌+◌, ◌<◌, String, ◌≡◌, refl, ap, false, List, [], ◌∷◌, ◌++◌, map, ◌==◌, arith, Bool-cases,
  inl, inr, filter, All, eq_iff, eq_refl,
}
use mini_enterprise_rag_agen.Memory.Store.{
  Turn, TurnRow, ContextDb, insert_desc, order_desc, select_turns, read_context, insert_turn,
}

-- Every row is older than the counter.
abbrev pub IsFresh : {S R : Type 0} → ContextDb S R → Type 0
IsFresh {S} {R} db = All (λ (r : TurnRow S R). r.id < db.next_id) db.turns

pub map_snoc :
    {A B : Type 0} (f : A → B) (xs : List A) (x : A) → map f (xs ++ x ∷ []) ≡ map f xs ++ f x ∷ []
map_snoc f [] x = refl
map_snoc f (y ∷ ys) x = ap (λ l. f y ∷ l) (map_snoc f ys x)

module _ {S R : Type 0} where
  All-snoc_id :
      (n : ℕ) (r : TurnRow S R) (rows : List (TurnRow S R))
      → All (λ (q : TurnRow S R). q.id < n) rows
      → r.id ≡ n
      → All (λ (q : TurnRow S R). q.id < n + 1) (rows ++ r ∷ [])
  All-snoc_id n r [] h e = (ground arith, tt)
  All-snoc_id n r (q ∷ rows) (p, h) e = (ground arith, All-snoc_id n r rows h e)

  insert_desc-above :
      (q r : TurnRow S R) (rows : List (TurnRow S R))
      → q.id < r.id
      → insert_desc q (r ∷ rows) ≡ r ∷ insert_desc q rows
  unfolding insert_desc
  insert_desc-above q r rows h = ground arith

  -- The youngest row comes first.
  pub order_desc_snoc :
      (name : String) (r : TurnRow S R) (rows : List (TurnRow S R))
      → All (λ (q : TurnRow S R). q.id < r.id) rows
      → r.session_id ≡ name
      → order_desc (filter (λ (q : TurnRow S R). q.session_id == name) (rows ++ r ∷ []))
        ≡ r ∷ order_desc (filter (λ (q : TurnRow S R). q.session_id == name) rows)
  unfolding order_desc filter insert_desc
  order_desc_snoc name r [] h e = ground (arith, eq_refl name, eq_iff r.session_id name)
  order_desc_snoc name r (q ∷ rows) (p, h) e = elim (Bool-cases (q.session_id == name)) [
    | inl own ↦ rw own (rw (order_desc_snoc name r rows h e) (insert_desc-above q r _ p))
    | inr other ↦ rw other (order_desc_snoc name r rows h e)
  ]

  pub filter_other :
      (name : String) (r : TurnRow S R) (rows : List (TurnRow S R))
      → (r.session_id == name) ≡ false
      → filter (λ (q : TurnRow S R). q.session_id == name) (rows ++ r ∷ [])
        ≡ filter (λ (q : TurnRow S R). q.session_id == name) rows
  unfolding filter
  filter_other name r [] h = ground arith
  filter_other name r (q ∷ rows) h = ground (arith, filter_other name r rows h)

  -- The context of the session that a turn was inserted for.
  pub read_context-insert_turn :
      (db : ContextDb S R) (name : String) (turn : Turn S R) (n : ℕ)
      → IsFresh db
      → (read_context (insert_turn db name turn) name (suc n)).turns
        ≡ (read_context db name n).turns ++ turn ∷ []
  unfolding read_context insert_turn select_turns
  read_context-insert_turn db name turn n fresh =
      rw
        (order_desc_snoc name (record { id = db.next_id; session_id = name; turn = turn }) db.turns
          fresh refl)
        (map_snoc _ _ _)

  pub read_context-insert_turn_other :
      (db : ContextDb S R) (name other : String) (turn : Turn S R) (n : ℕ)
      → (name == other) ≡ false
      → read_context (insert_turn db name turn) other n ≡ read_context db other n
  unfolding read_context insert_turn select_turns
  read_context-insert_turn_other db name other turn n h =
      rw
        (filter_other other (record { id = db.next_id; session_id = name; turn = turn }) db.turns h)
        refl

  pub insert_turn-IsFresh :
      (db : ContextDb S R) (name : String) (turn : Turn S R)
      → IsFresh db
      → IsFresh (insert_turn db name turn)
  unfolding insert_turn
  insert_turn-IsFresh db name turn fresh = All-snoc_id db.next_id _ db.turns fresh refl
