-- ===== src/Tools/Repository/Lookup.antt =====
-- The lookups of `CalendarRepository` of src/mini_rag/tools/repositories/calendar_repository.py after
-- its writes.
use mini_enterprise_rag_agen.Common.{
  String, ◌≡◌, refl, ◌∙◌, false, none, some, List, [], ◌∷◌, ◌++◌, ◌==◌, if◌then◌else◌, arith,
  Bool-cases, Option-cases, inl, inr, is_some, is_empty, Dict, eq_iff, eq_refl,
}
use mini_enterprise_rag_agen.Tools.Calendar.{Python, update_fields}
use mini_enterprise_rag_agen.Tools.Repository.{
  EventRow, stored, integrity_error, find_row, update_rows, delete_rows, delete_event, set_field,
  set_fields, changed_fields, row_to_event, get_event, new_row, read_back, create_event,
  update_event,
}

find_row-delete_rows :
    (event_id j : String) (rows : List EventRow)
    → find_row j (delete_rows event_id rows) ≡ (if event_id == j then none else find_row j rows)
unfolding find_row delete_rows
find_row-delete_rows event_id j [] = ground arith
find_row-delete_rows event_id j (row ∷ rows) = ground (
  arith,
  find_row-delete_rows event_id j rows,
  eq_iff row.event_id event_id,
  eq_iff row.event_id j,
  eq_iff event_id j,
)

find_row_snoc :
    (row : EventRow) (rows : List EventRow)
    → find_row row.event_id rows ≡ none
    → find_row row.event_id (rows ++ row ∷ []) ≡ some row
unfolding find_row
find_row_snoc row [] h = rw (eq_refl row.event_id) refl
find_row_snoc row (r ∷ rows) h = elim (Bool-cases (r.event_id == row.event_id)) [
  | inl same ↦ ground arith
  | inr other ↦ rw other (find_row_snoc row rows (ground arith))
]

id-set_field :
    (fields : Dict String) (field : String) (row : EventRow)
    → (set_field fields field row).event_id ≡ row.event_id
unfolding set_field
id-set_field fields field row = ground arith

id-set_fields :
    (fields : Dict String) (names : List String) (row : EventRow)
    → (set_fields fields names row).event_id ≡ row.event_id
unfolding set_fields
id-set_fields fields [] row = refl
id-set_fields fields (field ∷ names) row =
    id-set_fields fields names (set_field fields field row) ∙ id-set_field fields field row

find_row-update_rows :
    (event_id j : String) (set : EventRow → EventRow) (rows : List EventRow)
    → ((row : EventRow) → (set row).event_id ≡ row.event_id)
    → (event_id == j) ≡ false
    → find_row j (update_rows event_id set rows) ≡ find_row j rows
unfolding find_row update_rows
find_row-update_rows event_id j set [] h d = refl
find_row-update_rows event_id j set (row ∷ rows) h d = ground (
  arith,
  find_row-update_rows event_id j set rows h d,
  h row,
  eq_iff row.event_id event_id,
  eq_iff row.event_id j,
  eq_iff event_id j,
)

found-update_rows :
    (event_id : String) (set : EventRow → EventRow) (rows : List EventRow)
    → ((row : EventRow) → (set row).event_id ≡ row.event_id)
    → is_some (find_row event_id (update_rows event_id set rows)) ≡ is_some (find_row event_id rows)
unfolding find_row update_rows
found-update_rows event_id set [] h = refl
found-update_rows event_id set (row ∷ rows) h =
    ground (arith, found-update_rows event_id set rows h, h row, eq_iff row.event_id event_id)

module _ {D : Type 0} (py : Python D) where
  -- After a deletion the event is not found, and every other event is found as before.
  pub get_event-delete_event :
      (event_id j : String) (rows : List EventRow)
      → get_event py j (delete_event event_id rows).1
        ≡ (if event_id == j then none else get_event py j rows)
  unfolding get_event delete_event
  get_event-delete_event event_id j rows = ground (arith, find_row-delete_rows event_id j rows)

  -- A creation fails exactly when its event id is taken; else the new row is appended and read
  -- back, so that the RuntimeError of the source is never raised.
  pub create_event_lem :
      (event : Dict String) (rows : List EventRow) (now : String)
      → create_event py event rows now ≡ (
          if is_some (find_row (new_row py event rows now).event_id rows)
          then integrity_error
          else stored
              (row_to_event py (new_row py event rows now))
              (rows ++ new_row py event rows now ∷ []))
  unfolding create_event get_event read_back
  create_event_lem event rows now =
      elim (Option-cases (find_row (new_row py event rows now).event_id rows)) [
        | inr (row, taken) ↦ rw (create_event, taken) refl
        | inl free ↦
            rw (create_event, free, get_event, find_row_snoc (new_row py event rows now) rows free)
              refl
      ]

  is_some-get_event :
      (event_id : String) (rows : List EventRow)
      → is_some (get_event py event_id rows) ≡ is_some (find_row event_id rows)
  unfolding get_event
  is_some-get_event event_id rows = ground arith

  get_event-cong :
      (j : String) (rows rows' : List EventRow)
      → find_row j rows ≡ find_row j rows'
      → get_event py j rows ≡ get_event py j rows'
  unfolding get_event
  get_event-cong j rows rows' h = ground (arith, h)

  -- An update answers an event exactly when the event is there, and every other event is found as
  -- before.
  pub update_event_lem :
      (event_id j : String) (fields : Dict String) (rows : List EventRow) (now : String)
      → (event_id == j) ≡ false
      → (is_some (update_event py event_id fields rows now).0 ≡ is_some (find_row event_id rows))
        × (get_event py j (update_event py event_id fields rows now).1 ≡ get_event py j rows)
  unfolding update_event get_event
  update_event_lem event_id j fields rows now other =
      elim (Bool-cases (is_empty (changed_fields fields))) [
        | inl nothing ↦ rw (update_event, nothing) (is_some-get_event event_id rows, refl)
        | inr changes ↦ elim (Bool-cases (is_some (find_row event_id rows))) [
          | inr missing ↦ rw (update_event, changes, missing) (refl, refl)
          | inl there ↦
              rw (update_event, changes, there)
                (
                  is_some-get_event event_id _
                      ∙ (found-update_rows event_id _ rows (id-set_fields fields update_fields)
                          ∙ there),
                  get_event-cong j _ rows (
                      find_row-update_rows event_id j
                        (λ row. record (set_fields fields update_fields row) { updated_at = now })
                        rows (id-set_fields fields update_fields) other),
                )
        ]
      ]
