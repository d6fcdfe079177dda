-- ===== src/Storage/Sql.antt =====
-- internal/storage/sqlite/sqlite.go: its tables and the SQL statements on them, as SQL gives their
-- meaning. Rows stand in the order of their insertion; SQL leaves the order of a query without
-- ORDER BY open, and that of rows that ORDER BY calls equal.
use acorde.Base.Members.{mem}
use acorde.Base.{
  ℕ, zero, suc, ◌^◌, Bool, ◌&&◌, Option, none, some, List, [], ◌∷◌, ◌++◌, ltb, leb, if◌then◌else◌,
}
use acorde.Base.Equality.{nat_eq, list_eq, list_beq}
use acorde.Base.Slices.{take, drop}
use acorde.Base.Selections.{filter, insert, order}
use acorde.Base.Text.{Text}

pub record EntryRow : Type 0 where
  pub id : Text
  pub type : Text
  pub content : List ℕ
  pub created_at : ℕ
  pub updated_at : ℕ
  pub deleted : ℕ

pub record TagRow : Type 0 where
  pub entry_id : Text
  pub tag : Text

pub record Tables : Type 0 where
  pub entries : List EntryRow
  pub tags : List TagRow

-- database/sql refuses a uint64 with its high bit set
abbrev pub is_int64 : ℕ → Bool
is_int64 n = ltb n (2 ^ 63)

-- SELECT … WHERE id = ?
abbrev pub row_at : List EntryRow → Text → Option EntryRow
row_at [] id = none
row_at (row ∷ rows) id = if list_beq row.id id then some row else row_at rows id

abbrev pub select_entry : Tables → Text → Option EntryRow
select_entry t id = row_at t.entries id

-- INSERT … ON CONFLICT(id) DO UPDATE, which keeps created_at
unfoldable pub upsert_row : List EntryRow → EntryRow → List EntryRow
upsert_row [] row = row ∷ []
upsert_row (old ∷ rows) row =
    if list_beq old.id row.id
    then (record row { created_at = old.created_at }) ∷ rows
    else old ∷ upsert_row rows row

abbrev pub upsert_entry : Tables → EntryRow → Option Tables
upsert_entry t row =
    if is_int64 row.created_at && is_int64 row.updated_at
    then some (record t { entries = upsert_row t.entries row })
    else none

-- DELETE FROM tags WHERE entry_id = ?
unfoldable pub other_tags : List TagRow → Text → List TagRow
other_tags [] id = []
other_tags (row ∷ rows) id =
    let rest = other_tags rows id in if list_beq row.entry_id id then rest else row ∷ rest

abbrev pub delete_tags : Tables → Text → Tables
delete_tags t id = record t { tags = other_tags t.tags id }

-- SELECT tag FROM tags WHERE entry_id = ?
unfoldable pub tags_at : List TagRow → Text → List Text
tags_at [] id = []
tags_at (row ∷ rows) id =
    let rest = tags_at rows id in if list_beq row.entry_id id then row.tag ∷ rest else rest

abbrev pub select_tags : Tables → Text → List Text
select_tags t id = tags_at t.tags id

abbrev pub has_tag : Tables → Text → Text → Bool
has_tag t id tag = mem tag (select_tags t id)

-- INSERT INTO tags, which fails on the primary key and on the foreign key
abbrev pub insert_tag : Tables → Text → Text → Option Tables
insert_tag t id tag = elim (select_entry t id) [
  | none ↦ none
  | some _ ↦
      if has_tag t id tag
      then none
      else some (record t { tags = t.tags ++ (record { entry_id = id; tag = tag } ∷ []) })
]

-- UPDATE entries SET deleted = 1 WHERE id = ?, and the number of rows affected
unfoldable pub mark_rows : List EntryRow → Text → List EntryRow × ℕ
mark_rows [] id = ([], 0)
mark_rows (row ∷ rows) id =
    let (rest, n) = mark_rows rows id in
    if list_beq row.id id then (record row { deleted = 1 } ∷ rest, suc n) else (row ∷ rest, n)

abbrev pub mark_deleted : Tables → Text → Tables × ℕ
mark_deleted t id = let (rows, n) = mark_rows t.entries id in (record t { entries = rows }, n)

-- WHERE, with the conditions as a test
abbrev pub select_where : (EntryRow → Bool) → List EntryRow → List EntryRow
select_where = filter

-- ORDER BY updated_at DESC
abbrev pub insert_by_updated : EntryRow → List EntryRow → List EntryRow
insert_by_updated = insert (λ row. row.updated_at)

abbrev pub order_by_updated : List EntryRow → List EntryRow
order_by_updated = order (λ row. row.updated_at)

-- LIMIT and OFFSET; a limit of 0 is none
abbrev pub select_limit {ℓ} : {A : Type ℓ} → ℕ → ℕ → List A → List A
select_limit zero offset rows = drop offset rows
select_limit (suc limit) offset rows = take (suc limit) (drop offset rows)

-- SELECT MAX(updated_at)
unfoldable pub max_of : List EntryRow → Option ℕ
max_of [] = none
max_of (row ∷ rows) = elim (max_of rows) [
  | none ↦ some row.updated_at
  | some time ↦ some (if leb row.updated_at time then time else row.updated_at)
]

abbrev pub max_updated : Tables → Option ℕ
max_updated t = max_of t.entries
