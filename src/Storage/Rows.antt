-- ===== src/Storage/Rows.antt =====
-- internal/storage/sqlite/sqlite.go: reading a table after one of its statements.
use acorde.Base.{
  ◌≡◌, refl, Bool, true, not, ◌&&◌, Option, none, some, List, [], ◌∷◌, ◌++◌, map, if◌then◌else◌,
  arith,
}
use acorde.Base.Equality.{nat_eq, list_eq, list_beq, list_beq_iff}
use acorde.Base.Members.{mem}
use acorde.Base.Text.{Text}
use acorde.Storage.Sql.{EntryRow, TagRow, row_at, upsert_row, other_tags, tags_at, mark_rows}

-- the row that an upsert leaves
abbrev pub merged : Option EntryRow → EntryRow → EntryRow
merged none row = row
merged (some old) row = record row { created_at = old.created_at }

pub row_at-upsert_row :
    (rows : List EntryRow) (row : EntryRow) (id : Text)
    → row_at (upsert_row rows row) id
      ≡ (if list_beq row.id id then some (merged (row_at rows row.id) row) else row_at rows id)
unfolding upsert_row
row_at-upsert_row [] row id = ground arith
row_at-upsert_row (old ∷ rows) row id = ground (
  arith,
  row_at-upsert_row rows row id,
  list_beq_iff old.id row.id,
  list_beq_iff old.id id,
  list_beq_iff row.id id,
)

pub tags_at-other_tags :
    (rows : List TagRow) (id j : Text)
    → tags_at (other_tags rows id) j ≡ (if list_beq id j then [] else tags_at rows j)
unfolding other_tags tags_at
tags_at-other_tags [] id j = ground arith
tags_at-other_tags (row ∷ rows) id j = ground (
  arith,
  tags_at-other_tags rows id j,
  list_beq_iff row.entry_id id,
  list_beq_iff row.entry_id j,
  list_beq_iff id j,
)

pub tags_at-++ : (l m : List TagRow) (j : Text) → tags_at (l ++ m) j ≡ tags_at l j ++ tags_at m j
unfolding tags_at
tags_at-++ [] m j = refl
tags_at-++ (row ∷ l) m j = ground (arith, tags_at-++ l m j)

-- the rows of the tags of one entry
abbrev pub tag_rows : Text → List Text → List TagRow
tag_rows id = map (λ tag. record { entry_id = id; tag = tag })

pub tags_at-tag_rows :
    (id j : Text) (tags : List Text)
    → tags_at (tag_rows id tags) j ≡ (if list_beq id j then tags else [])
unfolding tags_at
tags_at-tag_rows id j [] = ground arith
tags_at-tag_rows id j (tag ∷ tags) = ground (arith, tags_at-tag_rows id j tags)

pub row_at-mark_rows :
    (rows : List EntryRow) (id j : Text)
    → row_at (mark_rows rows id).0 j ≡ (elim (row_at rows j) [
      | none ↦ none
      | some row ↦ some (if list_beq id j then record row { deleted = 1 } else row)
    ])
unfolding mark_rows
row_at-mark_rows [] id j = refl
row_at-mark_rows (row ∷ rows) id j = ground (
  arith,
  row_at-mark_rows rows id j,
  list_beq_iff row.id id,
  list_beq_iff row.id j,
  list_beq_iff id j,
)

-- no tag stands twice, or among those seen
abbrev pub fresh_tags : List Text → List Text → Bool
fresh_tags seen [] = true
fresh_tags seen (tag ∷ tags) = not (mem tag seen) && fresh_tags (seen ++ (tag ∷ [])) tags
