-- ===== src/Storage/Batches.antt =====
-- internal/storage/sqlite/sqlite.go: ApplyBatch against single calls, Delete, and GetMaxTimestamp.
use acorde.Base.{
  ℕ, ◌≡◌, refl, ◌∙◌, ◌≤◌, Bool, true, false, ◌&&◌, none, some, List, [], ◌∷◌, leb, ◌==◌,
  if◌then◌else◌, arith, inl, inr, Bool-cases, Option-cases,
}
use acorde.Base.Equality.{nat_eq, list_eq, list_beq}
use acorde.Base.Text.{Text}
use acorde.Core.Uuid.{Uuid, UuidPackage, beq-string}
use acorde.Core.Entry.{Entry}
use acorde.Storage.Sql.{EntryRow, Tables, row_at, mark_rows, mark_deleted, select_entry, max_of}
use acorde.Storage.Rows.{row_at-mark_rows}
use acorde.Storage.Puts.{is_storable, written, put_rows_lem, put_lem}
use acorde.Storage.{
  answer, failed, not_found, Operation, op_put, op_delete, put, get, delete, apply_rows,
  apply_batch, get_max_timestamp,
}

max_of-mark_rows : (rows : List EntryRow) (id : Text) → max_of (mark_rows rows id).0 ≡ max_of rows
unfolding max_of mark_rows
max_of-mark_rows [] id = refl
max_of-mark_rows (row ∷ rows) id = ground (arith, max_of-mark_rows rows id)

-- no row is newer
max_of-row_at :
    (rows : List EntryRow) (id : Text) (row : EntryRow)
    → row_at rows id ≡ some row
    → (time : ℕ) × (max_of rows ≡ some time) × (row.updated_at ≤ time)
unfolding max_of
max_of-row_at [] id row e = absurd (ground (arith, e))
max_of-row_at (other ∷ rows) id row e = elim (Bool-cases (list_beq other.id id)) [
  | inl same ↦ elim (Option-cases (max_of rows)) [
    | inl n ↦ (other.updated_at, ground (arith, n), ground (arith, e, same))
    | inr (time, n) ↦ (
      if leb other.updated_at time then time else other.updated_at,
      ground (arith, n),
      ground (arith, e, same),
    )
  ]
  | inr differ ↦
      let (time, n, newest) = max_of-row_at rows id row (ground (arith, e, differ)) in
      (
        if leb other.updated_at time then time else other.updated_at,
        ground (arith, n),
        ground (arith, newest),
      )
]

module _ ⦃uuids : UuidPackage⦄ where
  -- the operations as calls of Put and Delete, whose errors are ignored
  abbrev pub one_by_one : Tables → List Operation → Tables
  one_by_one t [] = t
  one_by_one t (op_put e ∷ ops) = one_by_one (put t e []).0 ops
  one_by_one t (op_delete e ∷ ops) = one_by_one (delete t e.id []).0 ops

  abbrev pub all_storable : List Operation → Bool
  all_storable [] = true
  all_storable (op_put e ∷ ops) = is_storable e && all_storable ops
  all_storable (op_delete e ∷ ops) = all_storable ops

  pub delete_lem :
      (t : Tables) (id : Uuid) → (delete t id []).0 ≡ (mark_deleted t (uuids.string id)).0
  unfolding delete
  delete_lem t id = ground arith

  apply_rows_lem :
      (t : Tables) (ops : List Operation)
      → apply_rows t ops [] ≡ (if all_storable ops then some (one_by_one t ops, []) else none)
  unfolding apply_rows
  apply_rows_lem t [] = refl
  apply_rows_lem t (op_put e ∷ ops) =
      ground (arith, put_rows_lem t e, put_lem t e, apply_rows_lem (written t e) ops)
  apply_rows_lem t (op_delete e ∷ ops) =
      let marked = (mark_deleted t (uuids.string e.id)).0 in
      ground (arith, delete_lem t e.id, apply_rows_lem marked ops)

  -- Where the database does not fail, ApplyBatch does what the single calls of Put and Delete do one
  -- after another if every entry that it puts has times below 2^63 and distinct tags, whether or not
  -- the entries that it deletes are there; if one has not, it gives an error and nothing is done.
  pub apply_batch-one_by_one :
      (t : Tables) (ops : List Operation)
      → apply_batch t ops [] ≡ (if all_storable ops then (one_by_one t ops, true) else (t, false))
  unfolding apply_batch
  apply_batch-one_by_one t ops = ground (arith, apply_rows_lem t ops)

  mark_rows-count :
      (rows : List EntryRow) (id : Text) → row_at rows id ≡ none → (mark_rows rows id).1 ≡ 0
  unfolding mark_rows
  mark_rows-count [] id e = refl
  mark_rows-count (row ∷ rows) id e = ground (arith, e, mark_rows-count rows id)

  mark_rows-counted :
      (rows : List EntryRow) (id : Text) (row : EntryRow)
      → row_at rows id ≡ some row
      → leb 1 (mark_rows rows id).1 ≡ true
  unfolding mark_rows
  mark_rows-counted [] id row e = ground (arith, e)
  mark_rows-counted (other ∷ rows) id row e = ground (arith, e, mark_rows-counted rows id row)

  -- what Delete answers: there is an entry with the id, or not
  delete_answer :
      (t : Tables) (id : Uuid)
      → (delete t id []).1
        ≡ (elim (select_entry t (uuids.string id)) [ none ↦ not_found id | some _ ↦ answer tt ])
  unfolding delete
  delete_answer t id =
      let name = uuids.string id in
      elim (Option-cases (row_at t.entries name)) [
        | inl e ↦ ground (arith, e, mark_rows-count t.entries name e)
        | inr (row, e) ↦ ground (arith, e, mark_rows-counted t.entries name row e)
      ]

  -- Where the database does not fail, Delete of an entry that is there gives no error, and Get then
  -- gives the entry marked as deleted, with its content, tags and times as they were; of one that is
  -- not there it gives an error; Get gives for the other ids what it gave, and the highest time in
  -- the table does not change, so a deletion leaves no trace in it.
  pub delete-get :
      (t : Tables) (id j : Uuid)
      → ((delete t id []).1 ≡ (elim (get t id []) [
        | failed ↦ failed
        | not_found i ↦ not_found i
        | answer _ ↦ answer tt
      ]))
        × (get (delete t id []).0 j [] ≡ (elim (get t j []) [
          | failed ↦ failed
          | not_found i ↦ not_found i
          | answer e ↦ answer (if id == j then record e { deleted = true } else e)
        ]))
        × (get_max_timestamp (delete t id []).0 [] ≡ get_max_timestamp t [])
  unfolding get get_max_timestamp
  delete-get t id j =
      let name = uuids.string id in
      let marked = row_at-mark_rows t.entries name (uuids.string j) in
      rw (delete_lem t id) (
        delete_answer t id ∙ ground arith,
        ground (arith, marked, beq-string id j),
        ground (arith, max_of-mark_rows t.entries name),
      )

  -- Where the database does not fail, GetMaxTimestamp gives a time, and no entry that Get gives was
  -- updated after it.
  pub get_max_timestamp-get :
      (t : Tables) (id : Uuid) (e : Entry)
      → get t id [] ≡ answer e
      → (time : ℕ) × (get_max_timestamp t [] ≡ some time) × (e.updated_at ≤ time)
  unfolding get get_max_timestamp
  get_max_timestamp-get t id e g = elim (Option-cases (row_at t.entries (uuids.string id))) [
    | inl n ↦ absurd (ground (arith, n, g))
    | inr (row, r) ↦
        let (time, m, newest) = max_of-row_at t.entries (uuids.string id) row r in
        (time, ground (arith, m), ground (arith, r, g, newest))
  ]
