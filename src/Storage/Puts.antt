-- ===== src/Storage/Puts.antt =====
-- internal/storage/sqlite/sqlite.go: when Put succeeds, and what Get gives after it.
use acorde.Base.{
  ◌≡◌, ◌∙◌, Bool, true, false, ◌&&◌, none, some, List, [], ◌∷◌, ◌++◌, ◌==◌, if◌then◌else◌, arith,
}
use mathlib.Core.List.{append_assoc, append-nil}
use acorde.Base.Equality.{nat_eq, list_eq, beq_refl}
use acorde.Base.Text.{Text}
use acorde.Core.Uuid.{Uuid, UuidPackage, beq-string}
use acorde.Core.Entry.{Entry}
use acorde.Storage.Sql.{
  EntryRow, Tables, row_at, upsert_row, other_tags, select_entry, select_tags, is_int64,
}
use acorde.Storage.Rows.{
  merged, row_at-upsert_row, tags_at-other_tags, tags_at-++, tag_rows, tags_at-tag_rows, fresh_tags,
}
use acorde.Storage.{answer, row_of, insert_tags, put_rows, put, get}

module _ ⦃uuids : UuidPackage⦄ where
  insert_tags_lem :
      (t : Tables) (id : Text) (row : EntryRow) (tags : List Text)
      → select_entry t id ≡ some row
      → insert_tags t id tags [] ≡ (
          if fresh_tags (select_tags t id) tags
          then some (record t { tags = t.tags ++ tag_rows id tags }, [])
          else none)
  unfolding insert_tags
  insert_tags_lem t id row [] e = ground (arith, append-nil t.tags)
  insert_tags_lem t id row (tag ∷ tags) e =
      let one = tag_rows id (tag ∷ []) in
      let next : Tables = record t { tags = t.tags ++ one } in
      let seen : select_tags next id ≡ select_tags t id ++ (tag ∷ []) =
        tags_at-++ t.tags one id ∙ ground (arith, tags_at-tag_rows id id (tag ∷ []), beq_refl id) in
      ground (
        arith,
        e,
        seen,
        insert_tags_lem next id row tags e,
        append_assoc t.tags one (tag_rows id tags),
      )

  -- the entries that Put takes
  abbrev pub is_storable : Entry → Bool
  is_storable e = is_int64 e.created_at && is_int64 e.updated_at && fresh_tags [] e.tags

  -- the tables with an entry in them
  abbrev pub written : Tables → Entry → Tables
  written t e =
      let id = uuids.string e.id in
      record {
        entries = upsert_row t.entries (row_of e);
        tags = other_tags t.tags id ++ tag_rows id e.tags;
      }

  pub put_rows_lem :
      (t : Tables) (e : Entry)
      → put_rows t e [] ≡ (if is_storable e then some (written t e, []) else none)
  unfolding put_rows
  put_rows_lem t e =
      let id = uuids.string e.id in
      let cleared : Tables = record {
        entries = upsert_row t.entries (row_of e);
        tags = other_tags t.tags id;
      } in
      let stands : select_entry cleared id ≡ some (merged (row_at t.entries id) (row_of e)) =
        row_at-upsert_row t.entries (row_of e) id ∙ ground (arith, beq_refl id) in
      let none_left : select_tags cleared id ≡ [] =
        tags_at-other_tags t.tags id id ∙ ground (arith, beq_refl id) in
      ground (
        arith,
        insert_tags_lem cleared id (merged (row_at t.entries id) (row_of e)) e.tags stands,
        none_left,
      )

  -- Where the database does not fail, Put succeeds exactly when both times of the entry are below
  -- 2^63 and no tag stands twice in it, and otherwise it gives an error and the tables are as they
  -- were.
  pub put_lem :
      (t : Tables) (e : Entry)
      → put t e [] ≡ (if is_storable e then (written t e, true) else (t, false))
  unfolding put
  put_lem t e = ground (arith, put_rows_lem t e)

  -- what Get gives for an entry that was put over what stood in its place
  abbrev pub stored : Tables → Entry → Entry
  stored t e = record e {
    created_at = (merged (select_entry t (uuids.string e.id)) (row_of e)).created_at;
  }

  select-written :
      (t : Tables) (e : Entry) (j : Uuid)
      → (select_entry (written t e) (uuids.string j) ≡ (
          if e.id == j
          then some (merged (select_entry t (uuids.string e.id)) (row_of e))
          else select_entry t (uuids.string j)))
        × (select_tags (written t e) (uuids.string j)
            ≡ (if e.id == j then e.tags else select_tags t (uuids.string j)))
  select-written t e j =
      let id = uuids.string e.id in
      let other = uuids.string j in
      (
        row_at-upsert_row t.entries (row_of e) other ∙ ground (arith, beq-string e.id j),
        tags_at-++ (other_tags t.tags id) (tag_rows id e.tags) other
            ∙ ground (
              arith,
              beq-string e.id j,
              tags_at-other_tags t.tags id other,
              tags_at-tag_rows id other e.tags,
              append-nil (select_tags t other),
            ),
      )

  -- After an entry whose times are below 2^63 and whose tags are distinct is put, where the database
  -- does not fail, Get gives it for its id, with the creation time that stood there before if one
  -- did, and gives for every other id what it gave.
  pub get-put-stored :
      (t : Tables) (e : Entry) (j : Uuid)
      → is_storable e ≡ true
      → ((put t e []).1 ≡ true)
        × (get (put t e []).0 j [] ≡ (if e.id == j then answer (stored t e) else get t j []))
  unfolding get
  get-put-stored t e j ok =
      let (row, tags) = select-written t e j in rw (put_lem t e) (ground (arith, ok, row, tags))
