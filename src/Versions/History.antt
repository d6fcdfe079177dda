-- ===== src/Versions/History.antt =====
-- internal/version/store.go: the table of versions, in SQLite. A call is given the faults of the
-- database, one for each statement. `max_versions` is 0 where there is no limit.
use acorde.Base.{
  ℕ, ◌+◌, Bool, true, false, not, ◌&&◌, Option, none, some, List, [], ◌∷◌, ◌++◌, map, length, leb,
  ◌==◌,
}
use acorde.Base.Equality.{nat_eq, list_eq, list_beq}
use acorde.Base.Slices.{take}
use acorde.Base.Selections.{filter, order, has_id}
use acorde.Base.Text.{Text}
use acorde.Core.Uuid.{Uuid, UuidPackage}
use acorde.AccessControl.Packages.{JsonPackage}
use acorde.Storage.{statement}
use acorde.Storage.Sql.{is_int64}
use acorde.Versions.{Version}

pub record VersionRow : Type 0 where
  pub id : ℕ
  pub entry_id : Text
  pub content : List ℕ
  pub tags : List ℕ
  pub timestamp : ℕ
  pub created_at : ℕ
  pub author : Option Text

-- the rows of entry_versions, and the last id that AUTOINCREMENT gave
pub record VersionTable : Type 0 where
  pub rows : List VersionRow
  pub last_id : ℕ

pub record VersionsStore : Type 0 where
  pub db : VersionTable
  pub max_versions : ℕ

-- what a query of one row gives
pub data Lookup : Type 0 where
  lookup_failed : Lookup
  no_version : Lookup
  version_found : Version → Lookup

abbrev pub row_id : VersionRow → ℕ
row_id r = r.id

abbrev pub row_time : VersionRow → ℕ
row_time r = r.timestamp

abbrev pub version_time : Version → ℕ
version_time v = v.timestamp

abbrev pub is_of : Text → VersionRow → Bool
is_of entry_id r = list_beq r.entry_id entry_id

-- INSERT INTO entry_versions, where a uint64 with its high bit set is refused and ids run out
abbrev insert_version : VersionTable → VersionRow → Option VersionTable
insert_version t row = elim (is_int64 row.timestamp && is_int64 (t.last_id + 1)) [
  | false ↦ none
  | true ↦ some (record {
    rows = t.rows ++ (record row { id = t.last_id + 1 } ∷ []);
    last_id = t.last_id + 1;
  })
]

-- SELECT … WHERE entry_id = ? ORDER BY timestamp DESC
abbrev pub history_rows : VersionTable → Text → List VersionRow
history_rows t entry_id = order row_time (filter (is_of entry_id) t.rows)

-- DELETE … WHERE entry_id = ? AND id NOT IN (the newest ones, up to the limit)
abbrev pub delete_older : VersionTable → Text → ℕ → VersionTable
delete_older t entry_id limit =
    let newest = take limit (history_rows t entry_id) in
    record t {
      rows = filter (λ r. not (is_of entry_id r && not (has_id row_id r.id newest))) t.rows;
    }

module _ ⦃uuids : UuidPackage⦄ where
  -- the store after the call, and whether there was no error
  unfoldable pub prune_versions : VersionsStore → Uuid → List Bool → VersionsStore × Bool
  prune_versions s entry_id faults =
      elim (statement (some (delete_older s.db (uuids.string entry_id) s.max_versions)) faults) [
        | none ↦ (s, false)
        | some (pruned, _) ↦ (record s { db = pruned }, true)
      ]

  unfoldable pub delete_versions : VersionsStore → Uuid → List Bool → VersionsStore × Bool
  delete_versions s entry_id faults =
      let left = filter (λ r. not (is_of (uuids.string entry_id) r)) s.db.rows in
      elim (statement (some (record s.db { rows = left })) faults) [
        | none ↦ (s, false)
        | some (next, _) ↦ (record s { db = next }, true)
      ]

  unfoldable pub get_version_count : VersionsStore → Uuid → List Bool → Option ℕ
  get_version_count s entry_id faults =
      elim (statement (some (length (filter (is_of (uuids.string entry_id)) s.db.rows))) faults) [
        | none ↦ none
        | some (n, _) ↦ some n
      ]

module _ ⦃uuids : UuidPackage⦄ ⦃json : JsonPackage⦄ where
  abbrev pub new_row : Uuid → List ℕ → List Text → ℕ → Text → ℕ → VersionRow
  new_row entry_id content tags timestamp author now = record {
    id = 0;
    entry_id = uuids.string entry_id;
    content = content;
    tags = json.marshal tags;
    timestamp = timestamp;
    created_at = now;
    author = some author;
  }

  -- `now` is the system's clock, in seconds
  unfoldable pub save_version :
      VersionsStore → Uuid → List ℕ → List Text → ℕ → Text → ℕ → List Bool → VersionsStore × Bool
  unfolding prune_versions
  save_version s entry_id content tags timestamp author now faults =
      let row = new_row entry_id content tags timestamp author now in
      elim (statement (insert_version s.db row) faults) [
        | none ↦ (s, false)
        | some (inserted, left) ↦
            let saved : VersionsStore = record s { db = inserted } in
            elim (leb 1 s.max_versions) [
              | false ↦ (saved, true)
              | true ↦ prune_versions saved entry_id left
            ]
      ]

  -- Scan and what follows it
  abbrev pub version_of : VersionRow → Version
  version_of row = record {
    id = row.id;
    entry_id = uuids.parse row.entry_id;
    content = row.content;
    tags = json.unmarshal row.tags;
    timestamp = row.timestamp;
    created_at = row.created_at;
    author = elim row.author [ none ↦ [] | some author ↦ author ];
  }

  unfoldable pub get_history : VersionsStore → Uuid → List Bool → Option (List Version)
  get_history s entry_id faults =
      elim (statement (some (history_rows s.db (uuids.string entry_id))) faults) [
        | none ↦ none
        | some (rows, _) ↦ some (map version_of rows)
      ]

  -- QueryRow, of the first row
  abbrev pub query_row : List VersionRow → List Bool → Lookup
  query_row rows faults = elim (statement (some rows) faults) [
    | none ↦ lookup_failed
    | some ([], _) ↦ no_version
    | some (row ∷ _, _) ↦ version_found (version_of row)
  ]

  unfoldable pub get_version : VersionsStore → Uuid → ℕ → List Bool → Lookup
  get_version s entry_id version_id faults =
      query_row (filter (λ r. is_of (uuids.string entry_id) r && r.id == version_id) s.db.rows)
        faults

  unfoldable pub get_version_at : VersionsStore → Uuid → ℕ → List Bool → Lookup
  get_version_at s entry_id timestamp faults = elim (is_int64 timestamp) [
    | false ↦ lookup_failed
    | true ↦
        let rows =
          filter (λ r. is_of (uuids.string entry_id) r && leb r.timestamp timestamp) s.db.rows in
        query_row (take 1 (order row_time rows)) faults
  ]
