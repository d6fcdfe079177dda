-- ===== src/Storage/Queries.antt =====
-- internal/storage/sqlite/sqlite.go: what List gives, in terms of Get.
use acorde.Base.{
  ◌≡◌, refl, ap, ◌∙◌, sym, ◌≤◌, Bool, true, not, ◌&&◌, ◌||◌, Option, none, some, List, [], ◌∷◌, map,
  leb, ◌==◌, if◌then◌else◌, arith, inl, inr, Option-cases,
}
use acorde.Base.Equality.{nat_eq, list_eq, list_beq, list_beq_iff}
use acorde.Base.Members.{mem}
use acorde.Base.Text.{Text}
use acorde.Core.Uuid.{Uuid, UuidPackage, beq-string}
use acorde.Core.Entry.{Entry}
use acorde.Base.Selections.{insert, order}
use acorde.Storage.Sql.{
  EntryRow, Tables, row_at, select_where, insert_by_updated, order_by_updated, select_tags,
}
use acorde.Storage.{args_fit, failed, not_found, answer, ListFilter, entry_of, is_asked, list, get}
use acorde.Storage.Lists.{IsRows, row_at-select_where, select_where-IsRows, order_by_updated-IsRows}

-- the entries that a filter asks for, limit and offset aside
abbrev pub is_wanted : ListFilter → Entry → Bool
is_wanted filter e =
    elim filter.type [ none ↦ true | some type ↦ list_beq e.type type ]
    && (filter.deleted || not e.deleted)
    && elim filter.since [ none ↦ true | some since ↦ leb since e.updated_at ]
    && elim filter.until [ none ↦ true | some until ↦ leb e.updated_at until ]
    && elim filter.tag [ none ↦ true | some tag ↦ mem tag e.tags ]

abbrev pub entry_at : List Entry → Uuid → Option Entry
entry_at [] id = none
entry_at (e ∷ l) id = if e.id == id then some e else entry_at l id

row_at_id :
    (rows : List EntryRow) (id : Text) (row : EntryRow) → row_at rows id ≡ some row → row.id ≡ id
row_at_id [] id row e = ground (arith, e)
row_at_id (other ∷ rows) id row e =
    ground (arith, e, list_beq_iff other.id id, row_at_id rows id row)

-- no two entries have one id
abbrev pub DistinctIds : List Entry → Type 0
DistinctIds [] = Unit
DistinctIds (e ∷ l) = (entry_at l e.id ≡ none) × DistinctIds l

-- the newest first
abbrev pub Descending : List Entry → Type 0
Descending [] = Unit
Descending (a ∷ []) = Unit
Descending (a ∷ b ∷ l) = (b.updated_at ≤ a.updated_at) × Descending (b ∷ l)

abbrev Sorted : List EntryRow → Type 0
Sorted [] = Unit
Sorted (a ∷ []) = Unit
Sorted (a ∷ b ∷ l) = (b.updated_at ≤ a.updated_at) × Sorted (b ∷ l)

insert_by_updated-Sorted :
    (row : EntryRow) (rows : List EntryRow) → Sorted rows → Sorted (insert_by_updated row rows)
unfolding insert
insert_by_updated-Sorted row [] h = tt
insert_by_updated-Sorted row (a ∷ []) h = ground (arith, h)
insert_by_updated-Sorted row (a ∷ b ∷ l) h = ground (arith, h, insert_by_updated-Sorted row (b ∷ l))

order_by_updated-Sorted : (rows : List EntryRow) → Sorted (order_by_updated rows)
unfolding order
order_by_updated-Sorted [] = tt
order_by_updated-Sorted (row ∷ rows) =
    insert_by_updated-Sorted row (order_by_updated rows) (order_by_updated-Sorted rows)

module _ ⦃uuids : UuidPackage⦄ where
  abbrev pub read_row : Tables → EntryRow → Entry
  read_row t r = entry_of (uuids.parse r.id) r (select_tags t r.id)

  Descending-read_row :
      (t : Tables) (rows : List EntryRow) → Sorted rows → Descending (map (read_row t) rows)
  Descending-read_row t [] h = tt
  Descending-read_row t (a ∷ []) h = tt
  Descending-read_row t (a ∷ b ∷ l) h = (h.0, Descending-read_row t (b ∷ l) h.1)

  string_iff :
      (id : Uuid) (text : Text)
      → uuids.string (uuids.parse text) ≡ text
      → list_beq text (uuids.string id) ≡ (uuids.parse text == id)
  string_iff id text canonical =
      ap (λ s. list_beq s (uuids.string id)) (sym canonical) ∙ beq-string (uuids.parse text) id

  entry_at-read_row :
      (t : Tables) (rows : List EntryRow) (id : Uuid)
      → IsRows rows
      → entry_at (map (read_row t) rows) id ≡ (elim (row_at rows (uuids.string id)) [
        | none ↦ none
        | some row ↦ some (entry_of id row (select_tags t (uuids.string id)))
      ])
  entry_at-read_row t [] id h = refl
  entry_at-read_row t (row ∷ rows) id h = ground (
    arith,
    string_iff id row.id h.1,
    list_beq_iff row.id (uuids.string id),
    entry_at-read_row t rows id h.2,
  )

  -- the rows of a query without a limit
  abbrev pub queried : Tables → ListFilter → List EntryRow
  queried t filter = order_by_updated (select_where (is_asked t filter) t.entries)

  pub queried-DistinctIds :
      (t : Tables) (filter : ListFilter)
      → IsRows t.entries
      → DistinctIds (map (read_row t) (queried t filter))
  queried-DistinctIds t filter h =
      rows-DistinctIds (queried t filter)
        (order_by_updated-IsRows (select_where (is_asked t filter) t.entries)
          (select_where-IsRows (is_asked t filter) t.entries h)).0
    where
      rows-DistinctIds : (rows : List EntryRow) → IsRows rows → DistinctIds (map (read_row t) rows)
      rows-DistinctIds [] k = tt
      rows-DistinctIds (row ∷ rows) k = (
        entry_at-read_row t rows (uuids.parse row.id) k.2
            ∙ ground (arith, k.0, ap (row_at rows) k.1),
        rows-DistinctIds rows k.2,
      )

  pub list_lem :
      (t : Tables) (filter : ListFilter)
      → args_fit filter ≡ true
      → filter.limit ≡ 0
      → filter.offset ≡ 0
      → list t filter [] ≡ answer (map (read_row t) (queried t filter))
  unfolding list
  list_lem t filter fit l o = ground (arith, fit, l, o)

  read_asked :
      (t : Tables) (filter : ListFilter)
      → IsRows t.entries
      → (id : Uuid)
      → row_at (queried t filter) (uuids.string id)
        ≡ row_at (select_where (is_asked t filter) t.entries) (uuids.string id)
      → (elim (row_at (queried t filter) (uuids.string id)) as (λ x. Option Entry) [
        | none ↦ none
        | some row ↦ some (entry_of id row (select_tags t (uuids.string id)))
      ])
        ≡ (elim (get t id []) [
          | failed ↦ none
          | not_found _ ↦ none
          | answer e ↦ if is_wanted filter e then some e else none
        ])
  unfolding get
  read_asked t filter h id same =
      let name = uuids.string id in
      let chosen = row_at-select_where (is_asked t filter) t.entries name h in
      elim (Option-cases (row_at t.entries name)) [
        | inl e ↦ ground (arith, e, same, chosen)
        | inr (row, e) ↦ ground (arith, e, same, chosen, row_at_id t.entries name row e)
      ]

  -- List without a limit and without an offset, with bounds on the time below 2^63, where the database
  -- does not fail and the rows have distinct ids that are strings of UUIDs, gives exactly the entries
  -- that Get gives and the filter asks for, the newest first.
  pub list-get :
      (t : Tables) (filter : ListFilter)
      → IsRows t.entries
      → args_fit filter ≡ true
      → filter.limit ≡ 0
      → filter.offset ≡ 0
      → (l : List Entry) × (list t filter [] ≡ answer l)
        × Descending l
        × ((id : Uuid)
            → entry_at l id ≡ (elim (get t id []) [
              | failed ↦ none
              | not_found _ ↦ none
              | answer e ↦ if is_wanted filter e then some e else none
            ]))
  list-get t filter h fit l o =
      let asked = select_where (is_asked t filter) t.entries in
      let chosen = select_where-IsRows (is_asked t filter) t.entries h in
      let (ordered, same) = order_by_updated-IsRows asked chosen in
      (
        map (read_row t) (queried t filter),
        list_lem t filter fit l o,
        Descending-read_row t (queried t filter) (order_by_updated-Sorted asked),
        λ id.
            entry_at-read_row t (queried t filter) id ordered
            ∙ read_asked t filter h id (same (uuids.string id)),
      )
