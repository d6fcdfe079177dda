-- ===== src/Storage.antt =====
-- internal/storage/sqlite/sqlite.go: the store of entries in two tables of SQLite. A call is given
-- the faults of the database while it runs, one for each statement in turn; none are left where the
-- list ends. A transaction that is not committed leaves the tables as they were.
pub mod Sql
pub mod Rows
pub mod Puts
pub mod Lists
pub mod Queries
pub mod Faults
pub mod Keeps
pub mod Refines
pub mod Batches
pub mod Tests
use acorde.Base.{zero, suc}
use acorde.Base.Equality.{nat_eq, list_eq, list_beq}
use acorde.Base.{
  ℕ, ◌≡◌, ◌^◌, Bool, true, false, not, ◌&&◌, ◌||◌, Option, none, some, List, [], ◌∷◌, ◌++◌, map,
  ltb, leb, ◌==◌, if◌then◌else◌,
}
use acorde.Base.Text.{Text}
use acorde.Core.Uuid.{Uuid, UuidPackage}
use acorde.Core.Entry.{Entry}
use acorde.Storage.Sql.{
  is_int64, EntryRow, TagRow, Tables, upsert_entry, delete_tags, insert_tag, select_entry,
  select_tags, mark_deleted, select_where, order_by_updated, select_limit, max_updated, has_tag,
  is_int64,
}

-- what a call gives: an error of the database, no such entry, or its result
pub data Answer {ℓ} (A : Type ℓ) : Type ℓ where
  failed : Answer A
  not_found : Uuid → Answer A
  answer : A → Answer A

-- one statement: no result where the database fails, or where the statement does
abbrev pub statement {ℓ} : {A : Type ℓ} → Option A → List Bool → Option (A × List Bool)
statement none faults = none
statement (some a) [] = some (a, [])
statement (some a) (fault ∷ faults) = if fault then none else some (a, faults)

-- Begin, the statements of `body`, and Commit; the deferred Rollback drops what is not committed
abbrev pub transaction :
    Tables → (Tables → List Bool → Option (Tables × List Bool)) → List Bool → Tables × Bool
transaction t body faults = elim (statement (some t) faults) [
  | none ↦ (t, false)
  | some (begun, left) ↦ elim (body begun left) [
    | none ↦ (t, false)
    | some (written, rest) ↦ elim (statement (some written) rest) [
      | none ↦ (t, false)
      | some (committed, _) ↦ (committed, true)
    ]
  ]
]

abbrev bool_to_int : Bool → ℕ
bool_to_int true = 1
bool_to_int false = 0

pub record ListFilter : Type 0 where
  pub type : Option Text
  pub tag : Option Text
  pub since : Option ℕ
  pub until : Option ℕ
  pub deleted : Bool
  pub limit : ℕ
  pub offset : ℕ

pub data Operation : Type 0 where
  op_put : Entry → Operation
  op_delete : Entry → Operation

-- database/sql refuses a uint64 with its high bit set
abbrev pub args_fit : ListFilter → Bool
args_fit filter =
    elim filter.since [ none ↦ true | some since ↦ is_int64 since ]
    && elim filter.until [ none ↦ true | some until ↦ is_int64 until ]

module _ ⦃uuids : UuidPackage⦄ where
  abbrev pub row_of : Entry → EntryRow
  row_of e = record {
    id = uuids.string e.id;
    type = e.type;
    content = e.content;
    created_at = e.created_at;
    updated_at = e.updated_at;
    deleted = bool_to_int e.deleted;
  }

  -- the loop that inserts the tags
  unfoldable pub insert_tags : Tables → Text → List Text → List Bool → Option (Tables × List Bool)
  insert_tags t id [] faults = some (t, faults)
  insert_tags t id (tag ∷ tags) faults = elim (statement (insert_tag t id tag) faults) [
    | none ↦ none
    | some (next, left) ↦ insert_tags next id tags left
  ]

  -- the statements of Put, and of OpPut in ApplyBatch
  unfoldable pub put_rows : Tables → Entry → List Bool → Option (Tables × List Bool)
  unfolding insert_tags
  put_rows t entry faults =
      let id = uuids.string entry.id in
      elim (statement (upsert_entry t (row_of entry)) faults) [
        | none ↦ none
        | some (upserted, left) ↦ elim (statement (some (delete_tags upserted id)) left) [
          | none ↦ none
          | some (cleared, rest) ↦ insert_tags cleared id entry.tags rest
        ]
      ]

  -- the tables after the call, and whether there was no error
  unfoldable pub put : Tables → Entry → List Bool → Tables × Bool
  unfolding put_rows
  put t entry faults = transaction t (λ begun. put_rows begun entry) faults

  abbrev pub entry_of : Uuid → EntryRow → List Text → Entry
  entry_of id row tags = record {
    id = id;
    type = row.type;
    content = row.content;
    tags = tags;
    created_at = row.created_at;
    updated_at = row.updated_at;
    deleted = not (row.deleted == 0);
  }

  unfoldable pub get : Tables → Uuid → List Bool → Answer Entry
  get t id faults = elim (statement (some (select_entry t (uuids.string id))) faults) [
    | none ↦ failed
    | some (none, left) ↦ not_found id
    | some (some row, left) ↦ elim (statement (some (select_tags t (uuids.string id))) left) [
      | none ↦ failed
      | some (tags, rest) ↦ answer (entry_of id row tags)
    ]
  ]

  abbrev pub is_asked : Tables → ListFilter → EntryRow → Bool
  is_asked t filter row =
      elim filter.type [ none ↦ true | some type ↦ list_beq row.type type ]
      && (filter.deleted || row.deleted == 0)
      && elim filter.since [ none ↦ true | some since ↦ leb since row.updated_at ]
      && elim filter.until [ none ↦ true | some until ↦ leb row.updated_at until ]
      && elim filter.tag [ none ↦ true | some tag ↦ has_tag t row.id tag ]

  -- List: the query's WHERE, ORDER BY, LIMIT and OFFSET, and the batch that loads the tags
  unfoldable pub list : Tables → ListFilter → List Bool → Answer (List Entry)
  list t filter faults =
      if not (args_fit filter)
      then failed
      else elim (statement
          (some (
            select_limit filter.limit filter.offset
              (order_by_updated (select_where (is_asked t filter) t.entries))))
          faults) [
            | none ↦ failed
            | some ([], left) ↦ answer []
            | some (row ∷ rows, left) ↦
                elim (statement
                  (some
                    (map (λ r. entry_of (uuids.parse r.id) r (select_tags t r.id)) (row ∷ rows)))
                  left) [ none ↦ failed | some (entries, rest) ↦ answer entries ]
          ]

  -- Delete: the row is kept, and marked
  unfoldable pub delete : Tables → Uuid → List Bool → Tables × Answer (Unit {0})
  delete t id faults = elim (statement (some (mark_deleted t (uuids.string id))) faults) [
    | none ↦ (t, failed)
    | some ((marked, zero), left) ↦ (marked, not_found id)
    | some ((marked, suc _), left) ↦ (marked, answer tt)
  ]

  -- the loop of ApplyBatch
  unfoldable pub apply_rows : Tables → List Operation → List Bool → Option (Tables × List Bool)
  unfolding put_rows
  apply_rows t [] faults = some (t, faults)
  apply_rows t (op_put entry ∷ ops) faults = elim (put_rows t entry faults) [
    | none ↦ none
    | some (next, left) ↦ apply_rows next ops left
  ]
  apply_rows t (op_delete entry ∷ ops) faults =
      elim (statement (some (mark_deleted t (uuids.string entry.id))) faults) [
        | none ↦ none
        | some ((next, _), left) ↦ apply_rows next ops left
      ]

  unfoldable pub apply_batch : Tables → List Operation → List Bool → Tables × Bool
  unfolding apply_rows
  apply_batch t ops faults = transaction t (λ begun. apply_rows begun ops) faults

-- none where the query fails; a table without rows has the time 0
unfoldable pub get_max_timestamp : Tables → List Bool → Option ℕ
get_max_timestamp t faults = elim (statement (some (max_updated t)) faults) [
  | none ↦ none
  | some (none, left) ↦ some 0
  | some (some time, left) ↦ some time
]
