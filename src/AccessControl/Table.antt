-- ===== src/AccessControl/Table.antt =====
-- What internal/acl/store.go reads of a list that it has written.
use acorde.Base.{
  ◌≡◌, refl, sym, ◌∙◌, ap, Bool, true, false, Option, none, some, inl, inr, Option-cases, map, ◌==◌,
  if◌then◌else◌, arith,
}
use acorde.Base.Equality.{nat_eq, list_eq}
use acorde.Core.Uuid.{Uuid, UuidPackage, beq-string}
use acorde.Core.Entry.{Acl}
use acorde.AccessControl.Packages.{Row, JsonPackage, Database}
use acorde.AccessControl.{default_acl, row_of, acl_of, set_acl, get_acl, delete_acl}

module _ ⦃json : JsonPackage⦄ where
  -- a list as it comes back from the table: its names as JSON keeps them, and no timestamp
  abbrev pub stored : Acl → Acl
  stored acl = record acl {
    readers = map json.coerce acl.readers;
    writers = map json.coerce acl.writers;
    timestamp = 0;
  }

module _ ⦃uuids : UuidPackage⦄ ⦃json : JsonPackage⦄ where
  acl_of-row_of : (acl : Acl) → acl_of (row_of acl) ≡ stored acl
  acl_of-row_of acl =
      rw
        (
          uuids.parse-string acl.entry_id,
          json.unmarshal-marshal acl.readers,
          json.unmarshal-marshal acl.writers,
          flag acl.public,
        )
        refl
    where
      flag : (b : Bool) → ((if b then 1 else 0) == 1) ≡ b
      flag true = refl
      flag false = refl

-- the list that is made of what the query finds
abbrev found_acl :
    ⦃uuids : UuidPackage⦄ ⦃json : JsonPackage⦄ → Uuid → Option (Option Row) → Option Acl
found_acl entry_id none = none
found_acl entry_id (some none) = some (default_acl entry_id)
found_acl entry_id (some (some row)) = some (acl_of row)

module _ {Db : Type 0} ⦃uuids : UuidPackage⦄ ⦃json : JsonPackage⦄ ⦃database : Database Db⦄ (s : Db)
    (ready : database.Ready s) where
  get_acl_lem :
      (t : Db) (id : Uuid) → get_acl t id ≡ found_acl id (database.select t (uuids.string id))
  unfolding get_acl
  get_acl_lem t id = elim (Option-cases (database.select t (uuids.string id))) [
    | inl n ↦ ground (arith, n)
    | inr (found, there) ↦ elim (Option-cases found) [
      | inl n ↦ ground (arith, there, n)
      | inr (row, f) ↦ ground (arith, there, f)
    ]
  ]

  -- the list that is read of an id is that id's, and it has been in the table before
  pub known :
      (entry_id : Uuid)
      → (acl : Acl) × (get_acl s entry_id ≡ some acl)
        × (acl.entry_id ≡ entry_id)
        × (stored acl ≡ acl)
  unfolding get_acl
  known entry_id =
      let (found, there) = database.select-Ready s (uuids.string entry_id) ready in
      elim (Option-cases found) [
        | inl n ↦ (default_acl entry_id, ground (arith, there, n), refl, refl)
        | inr (row, f) ↦ (
          acl_of row,
          ground (arith, there, f),
          ap uuids.parse
                (database.select-key s (uuids.string entry_id) row ready (there ∙ ap some f))
              ∙ uuids.parse-string entry_id,
          rw (json.coerce-unmarshal row.readers, json.coerce-unmarshal row.writers) refl,
        )
      ]

  written :
      (acl : Acl) (id : Uuid) (c : Bool)
      → found_acl id (if c then some (some (row_of acl)) else database.select s (uuids.string id))
        ≡ (if c then some (stored acl) else get_acl s id)
  written acl id true = ap some (acl_of-row_of acl)
  written acl id false = sym (get_acl_lem s id)

  opened :
      (id : Uuid) (c : Bool)
      → found_acl id (if c then some none else database.select s (uuids.string id))
        ≡ (if c then some (default_acl id) else get_acl s id)
  opened id true = refl
  opened id false = sym (get_acl_lem s id)

  -- Setting a list of a database that answers succeeds, and then the list is read as it was set,
  -- save that its names went through JSON and that its timestamp is lost; the lists of other
  -- entries are read as before.
  pub set_acl-get_acl :
      (acl : Acl)
      → (s' : Db) × (set_acl s acl ≡ some s')
        × database.Ready s'
        × ((entry_id : Uuid)
            → get_acl s' entry_id
              ≡ (if acl.entry_id == entry_id then some (stored acl) else get_acl s entry_id))
  unfolding set_acl
  set_acl-get_acl acl =
      let (s', done, still, reads) = database.insert-Ready s (row_of acl) ready in
      (
        s',
        done,
        still,
        λ entry_id.
            get_acl_lem s' entry_id
            ∙ ap (found_acl entry_id) (
                reads (uuids.string entry_id)
                ∙ ap
                    (λ c.
                      if c
                      then some (some (row_of acl))
                      else database.select s (uuids.string entry_id))
                    (beq-string acl.entry_id entry_id))
            ∙ written acl entry_id (acl.entry_id == entry_id),
      )

  -- Deleting the list of an entry opens the entry to all, and leaves the lists of others.
  pub delete_acl-get_acl :
      (gone : Uuid)
      → (s' : Db) × (delete_acl s gone ≡ some s')
        × database.Ready s'
        × ((entry_id : Uuid)
            → get_acl s' entry_id
              ≡ (if gone == entry_id then some (default_acl entry_id) else get_acl s entry_id))
  unfolding delete_acl
  delete_acl-get_acl gone =
      let (s', done, still, reads) = database.delete-Ready s (uuids.string gone) ready in
      (
        s',
        done,
        still,
        λ entry_id.
            get_acl_lem s' entry_id
            ∙ ap (found_acl entry_id) (
                reads (uuids.string entry_id)
                ∙ ap (λ c. if c then some none else database.select s (uuids.string entry_id))
                    (beq-string gone entry_id))
            ∙ opened entry_id (gone == entry_id),
      )
