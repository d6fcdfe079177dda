-- ===== src/Storage/Keeps.antt =====
-- internal/storage/sqlite/sqlite.go: what its calls keep true of the tables, whatever the faults.
use acorde.Base.{
  ◌≡◌, refl, ap, ◌∙◌, Bool, true, false, none, some, List, [], ◌∷◌, if◌then◌else◌, arith, inl, inr,
  Bool-cases, Option-cases,
}
use mathlib.Core.List.{append-nil}
use acorde.Base.Equality.{nat_eq, list_eq, list_beq, list_beq_iff}
use acorde.Base.Text.{Text}
use acorde.Core.Uuid.{Uuid, UuidPackage}
use acorde.Core.Entry.{Entry}
use acorde.Storage.Sql.{
  EntryRow, Tables, upsert_row, mark_rows, other_tags, select_entry, select_tags,
}
use acorde.Storage.Rows.{
  row_at-upsert_row, row_at-mark_rows, tags_at-other_tags, tags_at-++, tag_rows, tags_at-tag_rows,
  fresh_tags,
}
use acorde.Storage.Lists.{IsRows}
use acorde.Storage.Puts.{is_storable, written, put_rows_lem}
use acorde.Storage.Faults.{transaction-cases, put_rows-OnlyFails}
use acorde.Storage.Sql.{mark_deleted}
use acorde.Storage.{
  Operation, op_put, op_delete, statement, row_of, put_rows, put, delete, apply_rows, apply_batch,
}

pub statement_result :
    {A : Type 0} (a b : A) (faults left : List Bool)
    → statement (some a) faults ≡ some (b, left)
    → b ≡ a
statement_result a b [] left e = ground (arith, e)
statement_result a b (true ∷ faults) left e = absurd (ground (arith, e))
statement_result a b (false ∷ faults) left e = ground (arith, e)

module _ ⦃uuids : UuidPackage⦄ where
  -- the primary keys, the foreign key, and ids that are the strings of UUIDs
  pub record IsTables (t : Tables) : Type 0 where
    pub rows : IsRows t.entries
    pub owned : (id : Text) → select_entry t id ≡ none → select_tags t id ≡ []
    pub no_repeat : (id : Text) → fresh_tags [] (select_tags t id) ≡ true

  upsert_row-IsRows :
      (rows : List EntryRow) (row : EntryRow)
      → IsRows rows
      → uuids.string (uuids.parse row.id) ≡ row.id
      → IsRows (upsert_row rows row)
  unfolding upsert_row
  upsert_row-IsRows [] row h c = (refl, c, tt)
  upsert_row-IsRows (old ∷ rows) row h c = ground (
    arith,
    h,
    c,
    upsert_row-IsRows rows row,
    row_at-upsert_row rows row old.id,
    list_beq_iff old.id row.id,
    list_beq_iff row.id old.id,
  )

  mark_rows-IsRows : (rows : List EntryRow) (id : Text) → IsRows rows → IsRows (mark_rows rows id).0
  unfolding mark_rows
  mark_rows-IsRows [] id h = tt
  mark_rows-IsRows (row ∷ rows) id h =
      ground (arith, h, mark_rows-IsRows rows id, row_at-mark_rows rows id row.id)

  pub written-IsTables :
      (t : Tables) (e : Entry) → IsTables t → is_storable e ≡ true → IsTables (written t e)
  written-IsTables t e h ok =
      let id = uuids.string e.id in
      let tags : (j : Text)
          → select_tags (written t e) j ≡ (if list_beq id j then e.tags else select_tags t j) =
        λ j.
          tags_at-++ (other_tags t.tags id) (tag_rows id e.tags) j
          ∙ ground (
            arith,
            tags_at-other_tags t.tags id j,
            tags_at-tag_rows id j e.tags,
            append-nil (select_tags t j),
          ) in
      record {
        rows =
            upsert_row-IsRows t.entries (row_of e) h.rows
              (ap uuids.string (uuids.parse-string e.id));
        owned =
            λ j n. ground (arith, tags j, n, h.owned j, row_at-upsert_row t.entries (row_of e) j);
        no_repeat = λ j. ground (arith, tags j, h.no_repeat j, ok);
      }

  marked-IsTables :
      (t : Tables) (id : Text)
      → IsTables t
      → IsTables (record t { entries = (mark_rows t.entries id).0 })
  marked-IsTables t id h = record {
    rows = mark_rows-IsRows t.entries id h.rows;
    owned = λ j n. ground (arith, n, h.owned j, row_at-mark_rows t.entries id j);
    no_repeat = h.no_repeat;
  }

  pub put_rows-written :
      (t u : Tables) (e : Entry) (faults left : List Bool)
      → put_rows t e faults ≡ some (u, left)
      → (is_storable e ≡ true) × (u ≡ written t e)
  put_rows-written t u e faults left p = elim (put_rows-OnlyFails t e faults) [
    | inl n ↦ absurd (ground (arith, n, p))
    | inr (a, rest, q, r) ↦ elim (Bool-cases (is_storable e)) [
      | inl ok ↦ (ok, ground (arith, p, q, r, ok, put_rows_lem t e))
      | inr bad ↦ absurd (ground (arith, r, bad, put_rows_lem t e))
    ]
  ]

  put_rows-IsTables :
      (t u : Tables) (e : Entry) (faults left : List Bool)
      → put_rows t e faults ≡ some (u, left)
      → IsTables t
      → IsTables u
  put_rows-IsTables t u e faults left p h =
      let (ok, same) = put_rows-written t u e faults left p in
      ground (arith, same, written-IsTables t e h ok)

  apply_rows-IsTables :
      (t u : Tables) (ops : List Operation) (faults left : List Bool)
      → apply_rows t ops faults ≡ some (u, left)
      → IsTables t
      → IsTables u
  unfolding apply_rows
  apply_rows-IsTables t u [] faults left p h = ground (arith, p, h)
  apply_rows-IsTables t u (op_put e ∷ ops) faults left p h =
      elim (Option-cases (put_rows t e faults)) [
        | inl n ↦ absurd (ground (arith, n, p))
        | inr ((next, rest), q) ↦
            apply_rows-IsTables next u ops rest left (ground (arith, p, q))
              (put_rows-IsTables t next e faults rest q h)
      ]
  apply_rows-IsTables t u (op_delete e ∷ ops) faults left p h =
      let id = uuids.string e.id in
      elim (Option-cases (statement (some (mark_deleted t id)) faults)) [
        | inl n ↦ absurd (ground (arith, n, p))
        | inr ((m, rest), q) ↦
            let same = statement_result (mark_deleted t id) m faults rest q in
            apply_rows-IsTables m.0 u ops rest left (ground (arith, p, q))
              (ground (arith, same, marked-IsTables t id h))
      ]

  pub put-IsTables :
      (t : Tables) (e : Entry) (faults : List Bool) → IsTables t → IsTables (put t e faults).0
  unfolding put
  put-IsTables t e faults h = elim (transaction-cases t (λ begun. put_rows begun e) faults) [
    | inl f ↦ rw f h
    | inr (u, given, left, f, p) ↦ rw f (put_rows-IsTables t u e given left p h)
  ]

  pub delete-IsTables :
      (t : Tables) (id : Uuid) (faults : List Bool) → IsTables t → IsTables (delete t id faults).0
  unfolding delete
  delete-IsTables t id faults h =
      let name = uuids.string id in
      elim (Option-cases (statement (some (mark_deleted t name)) faults)) [
        | inl n ↦ ground (arith, n, h)
        | inr ((m, rest), q) ↦
            let same = statement_result (mark_deleted t name) m faults rest q in
            ground (arith, q, same, marked-IsTables t name h)
      ]

  pub apply_batch-IsTables :
      (t : Tables) (ops : List Operation) (faults : List Bool)
      → IsTables t
      → IsTables (apply_batch t ops faults).0
  unfolding apply_batch
  apply_batch-IsTables t ops faults h =
      elim (transaction-cases t (λ begun. apply_rows begun ops) faults) [
        | inl f ↦ rw f h
        | inr (u, given, left, f, p) ↦ rw f (apply_rows-IsTables t u ops given left p h)
      ]
