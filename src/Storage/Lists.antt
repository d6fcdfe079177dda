-- ===== src/Storage/Lists.antt =====
-- internal/storage/sqlite/sqlite.go: List against Get, and the order of its result.
use acorde.Base.{◌≡◌, refl, ◌∙◌, Bool, none, some, List, [], ◌∷◌, if◌then◌else◌, arith}
use acorde.Base.Equality.{nat_eq, list_eq, list_beq, list_beq_iff}
use acorde.Base.Text.{Text}
use acorde.Core.Uuid.{UuidPackage}
use acorde.Base.Selections.{filter, insert, order}
use acorde.Storage.Sql.{EntryRow, row_at, select_where, insert_by_updated, order_by_updated}

module _ ⦃uuids : UuidPackage⦄ where
  -- no two rows have one id, and each id is the string of a UUID
  abbrev pub IsRows : List EntryRow → Type 0
  IsRows [] = Unit
  IsRows (row ∷ rows) =
      (row_at rows row.id ≡ none) × (uuids.string (uuids.parse row.id) ≡ row.id) × IsRows rows

  pub row_at-select_where :
      (test : EntryRow → Bool) (rows : List EntryRow) (id : Text)
      → IsRows rows
      → row_at (select_where test rows) id
        ≡ (elim (row_at rows id) [ none ↦ none | some row ↦ if test row then some row else none ])
  unfolding filter
  row_at-select_where test [] id h = refl
  row_at-select_where test (row ∷ rows) id h =
      ground (arith, row_at-select_where test rows id h.2, list_beq_iff row.id id, h.0)

  pub select_where-IsRows :
      (test : EntryRow → Bool) (rows : List EntryRow)
      → IsRows rows
      → IsRows (select_where test rows)
  unfolding filter
  select_where-IsRows test [] h = tt
  select_where-IsRows test (row ∷ rows) h =
      ground (
        arith,
        select_where-IsRows test rows h.2,
        row_at-select_where test rows row.id h.2,
        h.0,
        h.1,
      )

  row_at-insert_by_updated :
      (row : EntryRow) (rows : List EntryRow) (id : Text)
      → row_at rows row.id ≡ none
      → row_at (insert_by_updated row rows) id
        ≡ (if list_beq row.id id then some row else row_at rows id)
  unfolding insert
  row_at-insert_by_updated row [] id h = refl
  row_at-insert_by_updated row (other ∷ rows) id h = ground (
    arith,
    h,
    row_at-insert_by_updated row rows id,
    list_beq_iff other.id id,
    list_beq_iff row.id id,
    list_beq_iff other.id row.id,
  )

  insert_by_updated-IsRows :
      (row : EntryRow) (rows : List EntryRow)
      → IsRows (row ∷ rows)
      → IsRows (insert_by_updated row rows)
  unfolding insert
  insert_by_updated-IsRows row [] h = h
  insert_by_updated-IsRows row (other ∷ rows) h = ground (
    arith,
    h,
    insert_by_updated-IsRows row rows,
    row_at-insert_by_updated row rows other.id,
    list_beq_iff other.id row.id,
    list_beq_iff row.id other.id,
  )

  pub order_by_updated-IsRows :
      (rows : List EntryRow)
      → IsRows rows
      → IsRows (order_by_updated rows)
        × ((id : Text) → row_at (order_by_updated rows) id ≡ row_at rows id)
  unfolding order
  order_by_updated-IsRows [] h = (tt, λ id. refl)
  order_by_updated-IsRows (row ∷ rows) h =
      let (ordered, same) = order_by_updated-IsRows rows h.2 in
      let fresh : row_at (order_by_updated rows) row.id ≡ none = same row.id ∙ h.0 in
      (
        insert_by_updated-IsRows row (order_by_updated rows) (fresh, h.1, ordered),
        λ id.
            row_at-insert_by_updated row (order_by_updated rows) id fresh ∙ ground (arith, same id),
      )
