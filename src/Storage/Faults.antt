-- ===== src/Storage/Faults.antt =====
-- internal/storage/sqlite/sqlite.go: a fault of the database only makes a call fail. What comes
-- through, came through without faults.
use acorde.Base.{
  ◌≡◌, refl, Bool, true, false, Option, none, some, List, [], ◌∷◌, arith, inl, inr, ◌⊎◌,
}
use acorde.Base.Text.{Text}
use acorde.Core.Uuid.{UuidPackage}
use acorde.Core.Entry.{Entry}
use acorde.Storage.Sql.{Tables, upsert_entry, delete_tags, insert_tag, mark_deleted}
use acorde.Base.{arith, Option-cases}
use acorde.Storage.{
  transaction, Operation, op_put, op_delete, statement, row_of, insert_tags, put_rows, apply_rows,
}

abbrev OnlyFails : {A : Type 0} → (List Bool → Option (A × List Bool)) → Type 0
OnlyFails {A} run =
    (faults : List Bool)
    → (run faults ≡ none)
      ⊎ ((a : A) × (left : List Bool) × (run faults ≡ some (a, left)) × (run [] ≡ some (a, [])))

module _ {A : Type 0} where
  pub statement-OnlyFails : (r : Option A) → OnlyFails (statement r)
  statement-OnlyFails none faults = inl refl
  statement-OnlyFails (some a) [] = inr (a, [], refl, refl)
  statement-OnlyFails (some a) (true ∷ faults) = inl refl
  statement-OnlyFails (some a) (false ∷ faults) = inr (a, faults, refl, refl)

  pub done-OnlyFails : (a : A) → OnlyFails (λ faults. some (a, faults))
  done-OnlyFails a faults = inr (a, faults, refl, refl)

module _ {A B : Type 0} where
  abbrev pub then_run :
      (List Bool → Option (A × List Bool))
      → (A → List Bool → Option (B × List Bool))
      → List Bool
      → Option (B × List Bool)
  then_run f g faults = elim (f faults) [ none ↦ none | some (a, left) ↦ g a left ]

  pub then-OnlyFails :
      (f : List Bool → Option (A × List Bool)) (g : A → List Bool → Option (B × List Bool))
      → OnlyFails f
      → ((a : A) → OnlyFails (g a))
      → OnlyFails (then_run f g)
  then-OnlyFails f g hf hg faults = elim (hf faults) [
    | inl e ↦ inl (ground (arith, e))
    | inr (a, left, e, n) ↦ elim (hg a left) [
      | inl d ↦ inl (ground (arith, e, d))
      | inr (b, rest, d, m) ↦ inr (b, rest, ground (arith, e, d), ground (arith, n, m))
    ]
  ]

module _ ⦃uuids : UuidPackage⦄ where
  insert_tags-OnlyFails :
      (t : Tables) (id : Text) (tags : List Text) → OnlyFails (insert_tags t id tags)
  unfolding insert_tags
  insert_tags-OnlyFails t id [] = done-OnlyFails t
  insert_tags-OnlyFails t id (tag ∷ tags) =
      then-OnlyFails (statement (insert_tag t id tag)) (λ next. insert_tags next id tags)
        (statement-OnlyFails (insert_tag t id tag)) (λ next. insert_tags-OnlyFails next id tags)

  pub put_rows-OnlyFails : (t : Tables) (e : Entry) → OnlyFails (put_rows t e)
  unfolding put_rows
  put_rows-OnlyFails t e =
      let id = uuids.string e.id in
      then-OnlyFails (statement (upsert_entry t (row_of e)))
        (λ u. then_run (statement (some (delete_tags u id))) (λ c. insert_tags c id e.tags))
        (statement-OnlyFails (upsert_entry t (row_of e)))
        (λ u.
          then-OnlyFails (statement (some (delete_tags u id))) (λ c. insert_tags c id e.tags)
            (statement-OnlyFails (some (delete_tags u id)))
            (λ c. insert_tags-OnlyFails c id e.tags))

  pub apply_rows-OnlyFails : (t : Tables) (ops : List Operation) → OnlyFails (apply_rows t ops)
  unfolding apply_rows
  apply_rows-OnlyFails t [] = done-OnlyFails t
  apply_rows-OnlyFails t (op_put e ∷ ops) =
      then-OnlyFails (put_rows t e) (λ next. apply_rows next ops) (put_rows-OnlyFails t e)
        (λ next. apply_rows-OnlyFails next ops)
  apply_rows-OnlyFails t (op_delete e ∷ ops) =
      let marked = mark_deleted t (uuids.string e.id) in
      then-OnlyFails (statement (some marked)) (λ m. apply_rows m.0 ops)
        (statement-OnlyFails (some marked)) (λ m. apply_rows-OnlyFails m.0 ops)

-- a transaction leaves the tables as they were, or makes them what its statements give
pub transaction-cases :
    (t : Tables) (body : Tables → List Bool → Option (Tables × List Bool)) (faults : List Bool)
    → (transaction t body faults ≡ (t, false))
      ⊎ ((u : Tables) × (given : List Bool) × (left : List Bool) × (transaction t body faults
            ≡ (u, true))
          × (body t given ≡ some (u, left)))
transaction-cases t body faults = elim (statement-OnlyFails (some t) faults) [
  | inl e ↦ inl (ground (arith, e))
  | inr (begun, given, e, n) ↦ elim (Option-cases (body begun given)) [
    | inl f ↦ inl (ground (arith, e, f))
    | inr ((u, left), f) ↦ elim (statement-OnlyFails (some u) left) [
      | inl g ↦ inl (ground (arith, e, f, g))
      | inr (v, rest, g, m) ↦ inr (u, given, left, ground (arith, e, f, g, m), ground (arith, n, f))
    ]
  ]
]
