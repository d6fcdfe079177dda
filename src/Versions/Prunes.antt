-- ===== src/Versions/Prunes.antt =====
-- internal/version/store.go: what SaveVersion does to the histories, and GetVersionAt against
-- GetHistory.
use mathlib.Core.Path.{subst}
use acorde.Base.{
  ℕ, ◌+◌, ◌≡◌, refl, ap, sym, ◌∙◌, Bool, true, ◌&&◌, some, List, [], ◌∷◌, map, leb, ◌==◌,
  if◌then◌else◌, arith, inl, inr, Bool-cases,
}
use acorde.Base.Equality.{nat_eq, list_eq, list_beq}
use acorde.Base.Slices.{take, map-take}
use acorde.Base.Selections.{
  map-filter, map-insert_last, filter, order, insert_last, filter-filter, filter-order,
}
use acorde.Base.Text.{Text}
use acorde.Core.Uuid.{Uuid, UuidPackage, beq-string}
use acorde.AccessControl.Packages.{JsonPackage}
use acorde.Storage.Sql.{is_int64}
use acorde.Versions.{Version}
use acorde.Versions.History.{
  VersionRow, VersionTable, VersionsStore, Lookup, no_version, version_found, row_time,
  version_time, is_of, history_rows, delete_older, prune_versions, new_row, save_version,
  version_of, get_history, get_version_at, query_row,
}
use acorde.Versions.Tables.{
  IsVersions, history_rows-delete_older, delete_older-IsVersions, inserted, inserted-IsVersions,
  history_rows-inserted,
}

abbrev pub limited : {A : Type 0} → ℕ → List A → List A
limited limit l = if leb 1 limit then take limit l else l

map-limited :
    {A B : Type 0} (f : A → B) (limit : ℕ) (l : List A)
    → map f (limited limit l) ≡ limited limit (map f l)
map-limited f limit l = ground (arith, map-take f limit l)

abbrev pub head_lookup : List Version → Lookup
head_lookup [] = no_version
head_lookup (v ∷ _) = version_found v

module _ ⦃uuids : UuidPackage⦄ ⦃json : JsonPackage⦄ where
  -- the table after a SaveVersion that succeeds
  abbrev saved : VersionsStore → VersionRow → VersionTable
  saved s row =
      if leb 1 s.max_versions
      then delete_older (inserted s.db row) row.entry_id s.max_versions
      else inserted s.db row

  save_version_lem :
      (s : VersionsStore) (e : Uuid) (content : List ℕ) (tags : List Text) (time : ℕ)
      (author : Text) (now : ℕ)
      → is_int64 time ≡ true
      → is_int64 (s.db.last_id + 1) ≡ true
      → save_version s e content tags time author now []
        ≡ (record s { db = saved s (new_row e content tags time author now) }, true)
  unfolding save_version prune_versions
  save_version_lem s e content tags time author now fits left = ground (arith, fits, left)

  saved-IsVersions :
      (s : VersionsStore) (row : VersionRow) → IsVersions s.db → IsVersions (saved s row)
  saved-IsVersions s row h = elim (Bool-cases (leb 1 s.max_versions)) [
    | inl l ↦ ground (
      arith,
      l,
      delete_older-IsVersions (inserted s.db row) row.entry_id s.max_versions
          (inserted-IsVersions s.db row h),
    )
    | inr n ↦ ground (arith, n, inserted-IsVersions s.db row h)
  ]

  history_rows-saved :
      (s : VersionsStore) (row : VersionRow) (f : Text)
      → IsVersions s.db
      → history_rows (saved s row) f ≡ (
          if list_beq row.entry_id f
          then limited s.max_versions
              (insert_last row_time (record row { id = s.db.last_id + 1 }) (history_rows s.db f))
          else history_rows s.db f)
  history_rows-saved s row f h = ground (
    arith,
    history_rows-inserted s.db row f,
    history_rows-delete_older (inserted s.db row) row.entry_id f s.max_versions
        (inserted-IsVersions s.db row h),
  )

  version_of-new_row :
      (s : VersionsStore) (e : Uuid) (content : List ℕ) (tags : List Text) (time : ℕ)
      (author : Text) (now : ℕ)
      → version_of (record (new_row e content tags time author now) { id = s.db.last_id + 1 })
        ≡ record {
          id = s.db.last_id + 1;
          entry_id = e;
          content = content;
          tags = map json.coerce tags;
          timestamp = time;
          created_at = now;
          author = author;
        }
  version_of-new_row s e content tags time author now =
      ground (arith, uuids.parse-string e, json.unmarshal-marshal tags)

  query_row-take :
      (rows : List VersionRow) → query_row (take 1 rows) [] ≡ head_lookup (map version_of rows)
  query_row-take [] = refl
  query_row-take (r ∷ rows) = refl

  -- In a database that does not fail, for a time below 2^63 and while ids are left, SaveVersion
  -- succeeds. The history of its entry is then the one before with the new version placed by its
  -- time, behind those of the same time, and cut to the limit where there is one; so a new version
  -- that is older than as many others as the limit is lost at once. The histories of other entries
  -- stay the same.
  pub get_history-save_version :
      (s : VersionsStore) (e f : Uuid) (content : List ℕ) (tags : List Text) (time : ℕ)
      (author : Text) (now : ℕ) (old : List Version)
      → IsVersions s.db
      → is_int64 time ≡ true
      → is_int64 (s.db.last_id + 1) ≡ true
      → get_history s f [] ≡ some old
      → let new : Version = record {
        id = s.db.last_id + 1;
        entry_id = e;
        content = content;
        tags = map json.coerce tags;
        timestamp = time;
        created_at = now;
        author = author;
      } in
        let (next, done) = save_version s e content tags time author now [] in
        (done ≡ true)
        × IsVersions next.db
        × (get_history next f []
            ≡ some
                (if e == f then limited s.max_versions (insert_last version_time new old) else old))
  unfolding get_history
  get_history-save_version s e f content tags time author now old h fits left p =
      let row = new_row e content tags time author now in
      let new : VersionRow = record row { id = s.db.last_id + 1 } in
      let rows = history_rows s.db (uuids.string f) in
      let run = save_version_lem s e content tags time author now fits left in
      (
        ap (λ r. r.1) run,
        subst (λ (r : VersionsStore × Bool). IsVersions r.0.db) (sym run)
            (saved-IsVersions s row h),
        ap
              (λ (r : VersionsStore × Bool).
                some (map version_of (history_rows r.0.db (uuids.string f))))
              run
            ∙ ap (λ l. some (map version_of l)) (history_rows-saved s row (uuids.string f) h)
            ∙ ground (
              arith,
              p,
              beq-string e f,
              version_of-new_row s e content tags time author now,
              map-limited version_of s.max_versions (insert_last row_time new rows),
              map-insert_last version_of row_time version_time (λ r. refl) new rows,
            ),
      )

  -- In a database that does not fail, and for a time below 2^63, GetVersionAt gives the first version
  -- of the history that is not later than this time, and an error if there is none.
  pub get_version_at-get_history :
      (s : VersionsStore) (e : Uuid) (time : ℕ) (history : List Version)
      → is_int64 time ≡ true
      → get_history s e [] ≡ some history
      → get_version_at s e time [] ≡ head_lookup (filter (λ v. leb v.timestamp time) history)
  unfolding get_history get_version_at
  get_version_at-get_history s e time history fits p =
      let of_entry = is_of (uuids.string e) in
      let early = λ (r : VersionRow). leb r.timestamp time in
      let rows = history_rows s.db (uuids.string e) in
      let found : order row_time (filter (λ r. of_entry r && early r) s.db.rows)
          ≡ filter early rows =
        ap (order row_time) (
          sym (
            filter-filter early of_entry (λ r. of_entry r && early r) s.db.rows
              (λ r. ground arith)))
        ∙ sym (filter-order row_time early (filter of_entry s.db.rows)) in
      let listed : map version_of rows ≡ history = ground (arith, p) in
      ground (
        arith,
        fits,
        ap (λ l. query_row (take 1 l) []) found,
        query_row-take (filter early rows),
        map-filter version_of early (λ v. leb v.timestamp time) rows (λ r. refl),
        listed,
      )
