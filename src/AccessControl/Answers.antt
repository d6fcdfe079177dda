-- ===== src/AccessControl/Answers.antt =====
-- What the checks of internal/acl/store.go answer after a list is written back.
use acorde.Base.{◌≡◌, ap, inl, inr, Bool-cases, List, map, if◌then◌else◌, arith, some, ◌==◌, ==_iff}
use acorde.Base.Equality.{nat_eq, list_eq}
use acorde.Base.Text.{Text}
use acorde.Core.Uuid.{Uuid, UuidPackage}
use acorde.Core.Entry.{Acl}
use acorde.AccessControl.Packages.{JsonPackage, Database}
use acorde.AccessControl.Table.{stored, set_acl-get_acl}
use acorde.AccessControl.Peers.{can_write_lem}
use acorde.AccessControl.{can_read, can_write, set_acl, get_acl, check_read, check_write}

-- new names that JSON keeps
stored-edit :
    ⦃json : JsonPackage⦄
    → (acl : Acl) (rs ws : List Text) → stored acl ≡ acl
    → map json.coerce rs ≡ rs
    → map json.coerce ws ≡ ws
    → stored (record acl { readers = rs; writers = ws }) ≡ record acl { readers = rs; writers = ws }
stored-edit acl rs ws h hr hw = λ i. record acl {
  readers = hr i;
  writers = hw i;
  timestamp = ap (λ (a : Acl). a.timestamp) h i;
}

pub readers_kept :
    ⦃json : JsonPackage⦄
    → (acl : Acl) → stored acl ≡ acl
    → map json.coerce acl.readers ≡ acl.readers
readers_kept acl h = ap (λ (a : Acl). a.readers) h

pub writers_kept :
    ⦃json : JsonPackage⦄
    → (acl : Acl) → stored acl ≡ acl
    → map json.coerce acl.writers ≡ acl.writers
writers_kept acl h = ap (λ (a : Acl). a.writers) h

module _ {Db : Type 0} ⦃uuids : UuidPackage⦄ ⦃json : JsonPackage⦄ ⦃database : Database Db⦄ where
  -- in `s'` the list of `id` is `new`, and every other list is that of `s`
  abbrev pub Reads : Db → Db → Uuid → Acl → Type 0
  Reads s s' id new = (j : Uuid) → get_acl s' j ≡ (if id == j then some new else get_acl s j)

  pub check_read-Reads :
      (s s' : Db) (id : Uuid) (new : Acl)
      → Reads s s' id new
      → (j : Uuid) (q : Text)
      → check_read s' j q ≡ (if id == j then some (can_read new q) else check_read s j q)
  unfolding check_read
  check_read-Reads s s' id new h j q = elim (Bool-cases (id == j)) [
    | inl e ↦ ground (arith, e, h j)
    | inr e ↦ ground (arith, e, h j)
  ]

  pub check_write-Reads :
      (s s' : Db) (id : Uuid) (new : Acl)
      → Reads s s' id new
      → (j : Uuid) (q : Text)
      → check_write s' j q ≡ (if id == j then some (can_write new q) else check_write s j q)
  unfolding check_write
  check_write-Reads s s' id new h j q = elim (Bool-cases (id == j)) [
    | inl e ↦ ground (arith, e, h j)
    | inr e ↦ ground (arith, e, h j)
  ]

  pub check_read-get_acl :
      (s : Db) (id : Uuid) (acl : Acl) (q : Text)
      → get_acl s id ≡ some acl
      → check_read s id q ≡ some (can_read acl q)
  unfolding check_read
  check_read-get_acl s id acl q h = ground (arith, h)

  pub check_write-get_acl :
      (s : Db) (id : Uuid) (acl : Acl) (q : Text)
      → get_acl s id ≡ some acl
      → check_write s id q ≡ some (can_write acl q)
  unfolding check_write
  check_write-get_acl s id acl q h = ground (arith, h)

  -- the readers of a list do not matter to who may write
  pub check_write-readers :
      (s s' : Db) (id : Uuid) (acl : Acl) (rs : List Text)
      → get_acl s id ≡ some acl
      → Reads s s' id (record acl { readers = rs })
      → (j : Uuid) (q : Text) → check_write s' j q ≡ check_write s j q
  check_write-readers s s' id acl rs there reads j q =
      let new : Acl = record acl { readers = rs } in
      ground (
        arith,
        there,
        ==_iff id j,
        check_write-Reads s s' id new reads j q,
        check_write-get_acl s id acl q there,
        can_write_lem acl q,
        can_write_lem new q,
      )

  module _ (s : Db) (ready : database.Ready s) (id : Uuid) where
    -- the list of `id` is written back with other names
    pub rewritten :
        (acl : Acl)
        → acl.entry_id ≡ id
        → (rs ws : List Text) → stored acl ≡ acl
        → map json.coerce rs ≡ rs
        → map json.coerce ws ≡ ws
        → (s' : Db) × (set_acl s (record acl { readers = rs; writers = ws }) ≡ some s')
          × database.Ready s'
          × Reads s s' id (record acl { readers = rs; writers = ws })
    rewritten acl key rs ws settled hr hw =
        let new : Acl = record acl { readers = rs; writers = ws } in
        let (s', done, still, reads) = set_acl-get_acl s ready new in
        (s', done, still, λ j. ground (arith, reads j, key, stored-edit acl rs ws settled hr hw))
