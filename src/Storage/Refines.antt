-- ===== src/Storage/Refines.antt =====
-- internal/storage/sqlite/sqlite.go: the tables against a map from ids to entries, over any calls of
-- the store and any faults of the database.
use acorde.Base.{
  ℕ, ◌⊎◌, ◌≡◌, refl, ap, sym, ◌∙◌, Bool, true, false, Option, none, some, List, [], ◌∷◌, ◌++◌, ◌==◌,
  if◌then◌else◌, arith, inl, inr, Bool-cases, Option-cases,
}
use acorde.Base.Equality.{nat_eq, list_eq}
use acorde.Base.Members.{mem}
use acorde.Core.Uuid.{Uuid, UuidPackage}
use acorde.Core.Entry.{Entry}
use acorde.Base.Text.{Text}
use acorde.Storage.Sql.{EntryRow, Tables, mark_rows, mark_deleted, select_entry}
use acorde.Storage.Faults.{transaction-cases}
use acorde.Storage.Keeps.{
  IsTables, statement_result, put_rows-written, put-IsTables, delete-IsTables, apply_batch-IsTables,
}
use acorde.Storage.Puts.{is_storable, written, stored, put_lem, get-put-stored}
use acorde.Storage.Batches.{delete_lem, delete-get}
use acorde.Storage.{
  Answer, answer, failed, not_found, Operation, op_put, op_delete, statement, put_rows, put, get,
  delete, apply_rows, apply_batch,
}

-- what the store promises: a map from ids to entries
abbrev pub View : Type 0
View = Uuid → Option Entry

pub data Change : Type 0 where
  writes : Entry → Change
  marks : Uuid → Change

-- the same but for the order of the tags, which SQL leaves open
abbrev pub SameEntry : Option Entry → Option Entry → Type 0
SameEntry none none = Unit
SameEntry (some d) (some e) =
    (d ≡ record e { tags = d.tags }) × ((tag : Text) → mem tag d.tags ≡ mem tag e.tags)
SameEntry _ _ = ⊥

same_entry : (a b : Option Entry) → a ≡ b → SameEntry a b
same_entry none none p = tt
same_entry (some d) (some e) p =
    let q : d ≡ e = ground (arith, p) in
    (ground (arith, q), λ tag. ap (λ (x : Entry). mem tag x.tags) q)
same_entry none (some e) p = ground (arith, p)
same_entry (some d) none p = ground (arith, p)

-- an entry keeps the creation time of the one that it replaces
abbrev pub over : Option Entry → Entry → Entry
over none e = e
over (some old) e = record e { created_at = old.created_at }

abbrev pub marked : Option Entry → Option Entry
marked none = none
marked (some e) = some (record e { deleted = true })

abbrev pub change : Change → View → View
change (writes e) v id = if e.id == id then some (over (v e.id) e) else v id
change (marks k) v id = if k == id then marked (v id) else v id

abbrev pub replay : List Change → View → View
replay [] v = v
replay (c ∷ cs) v = replay cs (change c v)

replay-++ : (cs ds : List Change) (v : View) → replay (cs ++ ds) v ≡ replay ds (replay cs v)
replay-++ [] ds v = refl
replay-++ (c ∷ cs) ds v = replay-++ cs ds (change c v)

abbrev pub changes_of : List Operation → List Change
changes_of [] = []
changes_of (op_put e ∷ ops) = writes e ∷ changes_of ops
changes_of (op_delete e ∷ ops) = marks e.id ∷ changes_of ops

abbrev pub succeeded {ℓ} : {A : Type ℓ} → Answer A → Bool
succeeded failed = false
succeeded (not_found _) = false
succeeded (answer _) = true

Answer-cases :
    {A : Type 0} (a : Answer A)
    → (a ≡ failed) ⊎ (((id : Uuid) × (a ≡ not_found id)) ⊎ ((x : A) × (a ≡ answer x)))
Answer-cases failed = inl refl
Answer-cases (not_found id) = inr (inl (id, refl))
Answer-cases (answer x) = inr (inr (x, refl))

module _ ⦃uuids : UuidPackage⦄ where
  -- what Get gives where the database does not fail
  abbrev pub view : Tables → View
  view t id = elim (get t id []) [ failed ↦ none | not_found _ ↦ none | answer e ↦ some e ]

  -- A call of the store, with the faults of the database during it, and the changes that it reports.
  pub data Step : Tables → List Change → Tables → Type 0 where
    puts :
        {t : Tables} (e : Entry) (faults : List Bool)
        → Step t (if (put t e faults).1 then writes e ∷ [] else []) (put t e faults).0
    deletes :
        {t : Tables} (id : Uuid) (faults : List Bool)
        → Step t
            (if succeeded (delete t id faults).1 then marks id ∷ [] else [])
            (delete t id faults).0
    applies :
        {t : Tables} (ops : List Operation) (faults : List Bool)
        → Step t
            (if (apply_batch t ops faults).1 then changes_of ops else [])
            (apply_batch t ops faults).0

  pub data Run : Tables → List Change → Tables → Type 0 where
    stays : {t : Tables} → Run t [] t
    then_steps :
        {t u v : Tables} {cs ds : List Change} → Run t cs u → Step u ds v → Run t (cs ++ ds) v

  stored-over : (t : Tables) (e : Entry) → stored t e ≡ over (view t e.id) e
  unfolding get
  stored-over t e = elim (Option-cases (select_entry t (uuids.string e.id))) [
    | inl n ↦ ground (arith, n)
    | inr (row, r) ↦ ground (arith, r)
  ]

  get-written :
      (t : Tables) (e : Entry) (j : Uuid)
      → is_storable e ≡ true
      → get (written t e) j [] ≡ (if e.id == j then answer (stored t e) else get t j [])
  get-written t e j ok =
      let run : put t e [] ≡ (written t e, true) = put_lem t e ∙ ground (arith, ok) in
      ap (λ (r : Tables × Bool). get r.0 j []) (sym run) ∙ (get-put-stored t e j ok).1

  view-written :
      (t : Tables) (e : Entry)
      → is_storable e ≡ true
      → view (written t e) ≡ change (writes e) (view t)
  view-written t e ok = λ i j. at j i
    where
      at : (j : Uuid) → view (written t e) j ≡ change (writes e) (view t) j
      at j = ground (arith, get-written t e j ok, stored-over t e)

  view-marked :
      (t : Tables) (id : Uuid)
      → view (mark_deleted t (uuids.string id)).0 ≡ change (marks id) (view t)
  view-marked t id = λ i j. at j i
    where
      at : (j : Uuid) → view (mark_deleted t (uuids.string id)).0 j ≡ change (marks id) (view t) j
      at j =
          let read = ap (λ u. get u j []) (sym (delete_lem t id)) ∙ (delete-get t id j).1 in
          elim (Answer-cases (get t j [])) [
            | inl f ↦ ground (arith, read, f)
            | inr (inl (k, n)) ↦ ground (arith, read, n)
            | inr (inr (e, a)) ↦ ground (arith, read, a)
          ]

  view-apply_rows :
      (t u : Tables) (ops : List Operation) (faults left : List Bool)
      → apply_rows t ops faults ≡ some (u, left)
      → view u ≡ replay (changes_of ops) (view t)
  unfolding apply_rows
  view-apply_rows t u [] faults left p = ap view (ground (arith, p))
  view-apply_rows t u (op_put e ∷ ops) faults left p = elim (Option-cases (put_rows t e faults)) [
    | inl n ↦ absurd (ground (arith, n, p))
    | inr ((next, rest), q) ↦
        let (ok, same) = put_rows-written t next e faults rest q in
        view-apply_rows next u ops rest left (ground (arith, p, q))
        ∙ ap (replay (changes_of ops)) (ap view same ∙ view-written t e ok)
  ]
  view-apply_rows t u (op_delete e ∷ ops) faults left p =
      let id = uuids.string e.id in
      elim (Option-cases (statement (some (mark_deleted t id)) faults)) [
        | inl n ↦ absurd (ground (arith, n, p))
        | inr ((m, rest), q) ↦
            let same = statement_result (mark_deleted t id) m faults rest q in
            view-apply_rows m.0 u ops rest left (ground (arith, p, q))
            ∙ ap (replay (changes_of ops))
                (ap (λ (r : Tables × ℕ). view r.0) same ∙ view-marked t e.id)
      ]

  view-put :
      (t : Tables) (e : Entry) (faults : List Bool)
      → view (put t e faults).0 ≡ replay (if (put t e faults).1 then writes e ∷ [] else []) (view t)
  unfolding put
  view-put t e faults = elim (transaction-cases t (λ begun. put_rows begun e) faults) [
    | inl f ↦ rw f refl
    | inr (u, given, left, f, p) ↦
        let (ok, same) = put_rows-written t u e given left p in
        rw f (ap view same ∙ view-written t e ok)
  ]

  unmarked :
      (rows : List EntryRow) (id : Text) → (mark_rows rows id).1 ≡ 0 → (mark_rows rows id).0 ≡ rows
  unfolding mark_rows
  unmarked [] id n = refl
  unmarked (row ∷ rows) id n = ground (arith, n, unmarked rows id)

  delete-cases :
      (t : Tables) (id : Uuid) (faults : List Bool)
      → let after = (mark_deleted t (uuids.string id)).0 in
        (delete t id faults ≡ (t, failed))
        ⊎ ((delete t id faults ≡ (t, not_found id)) ⊎ (delete t id faults ≡ (after, answer tt)))
  unfolding delete
  delete-cases t id faults =
      let name = uuids.string id in
      elim (Option-cases (statement (some (mark_deleted t name)) faults)) [
        | inl n ↦ inl (ground (arith, n))
        | inr ((m, rest), q) ↦
            let same = statement_result (mark_deleted t name) m faults rest q in
            elim (Bool-cases ((mark_deleted t name).1 == 0)) [
              | inl z ↦ inr (inl (ground (arith, q, same, z, unmarked t.entries name)))
              | inr z ↦ inr (inr (ground (arith, q, same, z)))
            ]
      ]

  view-delete :
      (t : Tables) (id : Uuid) (faults : List Bool)
      → view (delete t id faults).0
        ≡ replay (if succeeded (delete t id faults).1 then marks id ∷ [] else []) (view t)
  view-delete t id faults = elim (delete-cases t id faults) [
    | inl f ↦ rw f refl
    | inr (inl n) ↦ rw n refl
    | inr (inr a) ↦ rw a (view-marked t id)
  ]

  view-apply_batch :
      (t : Tables) (ops : List Operation) (faults : List Bool)
      → view (apply_batch t ops faults).0
        ≡ replay (if (apply_batch t ops faults).1 then changes_of ops else []) (view t)
  unfolding apply_batch
  view-apply_batch t ops faults =
      elim (transaction-cases t (λ begun. apply_rows begun ops) faults) [
        | inl f ↦ rw f refl
        | inr (u, given, left, f, p) ↦ rw f (view-apply_rows t u ops given left p)
      ]

  Step-replay :
      {t u : Tables} {cs : List Change}
      → Step t cs u
      → IsTables t
      → IsTables u × (view u ≡ replay cs (view t))
  Step-replay (Step.puts {t} e faults) h = (put-IsTables t e faults h, view-put t e faults)
  Step-replay (Step.deletes {t} id faults) h =
      (delete-IsTables t id faults h, view-delete t id faults)
  Step-replay (Step.applies {t} ops faults) h =
      (apply_batch-IsTables t ops faults h, view-apply_batch t ops faults)

  -- From tables that keep their invariant, distinct ids that are strings of UUIDs and tags that
  -- belong to a row and stand once for it, every run of Put, Delete and ApplyBatch, with any faults
  -- of the database, leads to such tables, and they do what a map from ids to entries does with the
  -- changes of the calls that gave no error: Get, where the database does not fail, gives for every
  -- id what the map has, with the tags in any order. An entry that is put takes the place of the one
  -- before and keeps only its creation time, an entry that is deleted is marked, and a call that gave
  -- an error changes nothing.
  pub get-Run :
      {t u : Tables} {cs : List Change} (id : Uuid)
      → IsTables t
      → Run t cs u
      → IsTables u × SameEntry (view u id) (replay cs (view t) id)
  get-Run {t} {u} {cs} id h run =
      let (keeps, same) = go run h in
      (keeps, same_entry (view u id) (replay cs (view t) id) (ap (λ v. v id) same))
    where
      go :
          {u : Tables} {cs : List Change}
          → Run t cs u
          → IsTables t
          → IsTables u × (view u ≡ replay cs (view t))
      go Run.stays k = (k, refl)
      go (Run.then_steps {cs = cs} {ds = ds} run step) k =
          let (before, same) = go run k in
          let (after, last) = Step-replay step before in
          (after, last ∙ ap (replay ds) same ∙ sym (replay-++ cs ds (view t)))
