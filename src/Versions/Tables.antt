-- ===== src/Versions/Tables.antt =====
-- internal/version/store.go: the histories in a table after one of its statements.
use mathlib.Core.List.{append-nil}
use mathlib.Core.Path.{subst}
use acorde.Base.{
  ℕ, ◌+◌, ◌<◌, ◌≡◌, ap, sym, ◌∙◌, true, false, not, ◌&&◌, [], ◌∷◌, ◌++◌, if◌then◌else◌, arith, inl,
  inr, Bool-cases,
}
use acorde.Base.Equality.{nat_eq, list_eq, list_beq, list_beq_iff}
use acorde.Base.Slices.{take}
use acorde.Base.Selections.{
  filter, order, insert_last, has_id, distinct, filter-++, filter-filter, order-++, filter-order,
  has_id-++, distinct-++, has_id-filter, distinct-filter, distinct-order, filter-take,
}
use acorde.Base.Text.{Text}
use acorde.Versions.History.{
  VersionRow, VersionTable, row_id, row_time, is_of, history_rows, delete_older,
}

-- no id stands twice, and AUTOINCREMENT is not behind one
pub record IsVersions (t : VersionTable) : Type 0 where
  pub distinct : distinct row_id t.rows ≡ true
  pub fresh : (n : ℕ) → t.last_id < n → has_id row_id n t.rows ≡ false

delete_older_same :
    (t : VersionTable) (e : Text) (limit : ℕ)
    → IsVersions t
    → history_rows (delete_older t e limit) e ≡ take limit (history_rows t e)
delete_older_same t e limit h =
    let newest = take limit (history_rows t e) in
    let old = λ (r : VersionRow). not (is_of e r && not (has_id row_id r.id newest)) in
    let kept = λ (r : VersionRow). has_id row_id r.id newest in
    let both = λ (r : VersionRow). is_of e r && kept r in
    ap (order row_time) (
      filter-filter (is_of e) old both t.rows (λ r. ground arith)
      ∙ sym (filter-filter kept (is_of e) both t.rows (λ r. ground arith)))
    ∙ sym (filter-order row_time kept (filter (is_of e) t.rows))
    ∙ filter-take row_id limit (history_rows t e) (
        distinct-order row_id row_time (filter (is_of e) t.rows)
          (distinct-filter row_id (is_of e) t.rows h.distinct))

delete_older_other :
    (t : VersionTable) (e f : Text) (limit : ℕ)
    → list_beq e f ≡ false
    → history_rows (delete_older t e limit) f ≡ history_rows t f
delete_older_other t e f limit n =
    let newest = take limit (history_rows t e) in
    let old = λ (r : VersionRow). not (is_of e r && not (has_id row_id r.id newest)) in
    ap (order row_time) (
      filter-filter (is_of f) old (is_of f) t.rows (λ r.
        ground (arith, n, list_beq_iff r.entry_id e, list_beq_iff r.entry_id f, list_beq_iff e f)))

pub history_rows-delete_older :
    (t : VersionTable) (e f : Text) (limit : ℕ)
    → IsVersions t
    → history_rows (delete_older t e limit) f
      ≡ (if list_beq e f then take limit (history_rows t f) else history_rows t f)
history_rows-delete_older t e f limit h = elim (Bool-cases (list_beq e f)) [
  | inl same ↦
      let path : e ≡ f = ground (arith, same, list_beq_iff e f) in
      subst (λ x. history_rows (delete_older t e limit) x ≡ take limit (history_rows t x)) path
        (delete_older_same t e limit h)
      ∙ ground (arith, same)
  | inr n ↦ delete_older_other t e f limit n ∙ ground (arith, n)
]

pub delete_older-IsVersions :
    (t : VersionTable) (e : Text) (limit : ℕ) → IsVersions t → IsVersions (delete_older t e limit)
delete_older-IsVersions t e limit h =
    let newest = take limit (history_rows t e) in
    let old = λ (r : VersionRow). not (is_of e r && not (has_id row_id r.id newest)) in
    record {
      distinct = distinct-filter row_id old t.rows h.distinct;
      fresh = λ n m. has_id-filter row_id old n t.rows (h.fresh n m);
    }

abbrev pub inserted : VersionTable → VersionRow → VersionTable
inserted t row = record {
  rows = t.rows ++ (record row { id = t.last_id + 1 } ∷ []);
  last_id = t.last_id + 1;
}

pub inserted-IsVersions :
    (t : VersionTable) (row : VersionRow) → IsVersions t → IsVersions (inserted t row)
unfolding has_id
inserted-IsVersions t row h =
    let new : VersionRow = record row { id = t.last_id + 1 } in
    record {
      distinct = distinct-++ row_id t.rows new h.distinct (h.fresh (t.last_id + 1) (ground arith));
      fresh = λ n m. has_id-++ row_id n t.rows (new ∷ []) ∙ ground (arith, m, h.fresh n);
    }

pub history_rows-inserted :
    (t : VersionTable) (row : VersionRow) (f : Text)
    → history_rows (inserted t row) f ≡ (
        if list_beq row.entry_id f
        then insert_last row_time (record row { id = t.last_id + 1 }) (history_rows t f)
        else history_rows t f)
unfolding filter
history_rows-inserted t row f =
    let new : VersionRow = record row { id = t.last_id + 1 } in
    ap (order row_time) (filter-++ (is_of f) t.rows (new ∷ []))
    ∙ elim (Bool-cases (list_beq row.entry_id f)) [
      | inl e ↦ ground (arith, e, order-++ row_time (filter (is_of f) t.rows) new)
      | inr n ↦ ground (arith, n, append-nil (filter (is_of f) t.rows))
    ]
