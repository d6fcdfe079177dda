-- ===== src/AccessControl.antt =====
-- internal/acl/store.go: the access control lists of a node, in a table of its database.
pub mod Packages
pub mod Table
pub mod Peers
pub mod Answers
pub mod Grants
pub mod Revokes
pub mod Tests
use acorde.Base.{
  ℕ, Bool, true, false, ◌||◌, Option, none, some, List, [], ◌∷◌, ◌++◌, map, ◌==◌, if◌then◌else◌,
}
use acorde.Base.Equality.{nat_eq, list_beq}
use acorde.Base.Text.{Text}
use acorde.Core.Uuid.{Uuid, UuidPackage}
use acorde.Core.Entry.{Acl}
use acorde.AccessControl.Packages.{Row, JsonPackage, Database}

-- a loop that looks for a peer
abbrev pub has_peer : List Text → Text → Bool
has_peer [] peer_id = false
has_peer (p ∷ rest) peer_id =
    let later = has_peer rest peer_id in if list_beq p peer_id then true else later

-- the loop that copies all peers but one
abbrev pub without_peer : List Text → Text → List Text
without_peer [] peer_id = []
without_peer (p ∷ rest) peer_id =
    let kept = without_peer rest peer_id in if list_beq p peer_id then kept else p ∷ kept

-- the list of an entry that has none: open to all
abbrev pub default_acl : Uuid → Acl
default_acl entry_id = record {
  entry_id = entry_id;
  owner = [];
  readers = [];
  writers = [];
  public = true;
  timestamp = 0;
}

-- the owner, or anyone where there is no owner
abbrev pub is_owner : Acl → Text → Bool
is_owner acl peer_id = list_beq acl.owner peer_id || list_beq acl.owner []

unfoldable pub can_read : Acl → Text → Bool
can_read acl peer_id =
    if acl.public
    then true
    else if is_owner acl peer_id
    then true
    else if has_peer acl.writers peer_id
    then true
    else has_peer acl.readers peer_id

unfoldable pub can_write : Acl → Text → Bool
can_write acl peer_id = if is_owner acl peer_id then true else has_peer acl.writers peer_id

module _ ⦃uuids : UuidPackage⦄ ⦃json : JsonPackage⦄ where
  -- the row that `SetACL` writes; the table has no column for the timestamp
  abbrev pub row_of : Acl → Row
  row_of acl = record {
    entry_id = uuids.string acl.entry_id;
    owner = acl.owner;
    readers = json.marshal acl.readers;
    writers = json.marshal acl.writers;
    public = if acl.public then 1 else 0;
  }

  -- the list that is made of a row
  abbrev pub acl_of : Row → Acl
  acl_of row = record {
    entry_id = uuids.parse row.entry_id;
    owner = row.owner;
    readers = json.unmarshal row.readers;
    writers = json.unmarshal row.writers;
    public = row.public == 1;
    timestamp = 0;
  }

module _ {Db : Type 0} ⦃uuids : UuidPackage⦄ ⦃json : JsonPackage⦄ ⦃database : Database Db⦄ where
  -- no result stands for the error of the database
  unfoldable pub set_acl : Db → Acl → Option Db
  set_acl s acl = database.insert_or_replace s (row_of acl)

  unfoldable pub get_acl : Db → Uuid → Option Acl
  get_acl s entry_id = elim (database.select s (uuids.string entry_id)) [
    | none ↦ none
    | some none ↦ some (default_acl entry_id)
    | some (some row) ↦ some (acl_of row)
  ]

  unfoldable pub delete_acl : Db → Uuid → Option Db
  delete_acl s entry_id = database.delete s (uuids.string entry_id)

  unfoldable pub list : Db → Option (List Acl)
  list s = elim (database.select_all s) [ none ↦ none | some rows ↦ some (map acl_of rows) ]

  unfoldable pub check_read : Db → Uuid → Text → Option Bool
  check_read s entry_id peer_id = elim (get_acl s entry_id) [
    | none ↦ none
    | some acl ↦ some (can_read acl peer_id)
  ]

  unfoldable pub check_write : Db → Uuid → Text → Option Bool
  check_write s entry_id peer_id = elim (get_acl s entry_id) [
    | none ↦ none
    | some acl ↦ some (can_write acl peer_id)
  ]

  unfoldable pub check_admin : Db → Uuid → Text → Option Bool
  check_admin s entry_id peer_id = elim (get_acl s entry_id) [
    | none ↦ none
    | some acl ↦ some (is_owner acl peer_id)
  ]

  unfoldable pub grant_read : Db → Uuid → Text → Option Db
  grant_read s entry_id peer_id = elim (get_acl s entry_id) [
    | none ↦ none
    | some acl ↦
        if has_peer acl.readers peer_id
        then some s
        else set_acl s (record acl { readers = acl.readers ++ (peer_id ∷ []) })
  ]

  unfoldable pub grant_write : Db → Uuid → Text → Option Db
  grant_write s entry_id peer_id = elim (get_acl s entry_id) [
    | none ↦ none
    | some acl ↦
        if has_peer acl.writers peer_id
        then some s
        else set_acl s (record acl { writers = acl.writers ++ (peer_id ∷ []) })
  ]

  unfoldable pub revoke_read : Db → Uuid → Text → Option Db
  revoke_read s entry_id peer_id = elim (get_acl s entry_id) [
    | none ↦ none
    | some acl ↦ set_acl s (record acl { readers = without_peer acl.readers peer_id })
  ]

  unfoldable pub revoke_write : Db → Uuid → Text → Option Db
  revoke_write s entry_id peer_id = elim (get_acl s entry_id) [
    | none ↦ none
    | some acl ↦ set_acl s (record acl { writers = without_peer acl.writers peer_id })
  ]

  unfoldable pub set_owner : Db → Uuid → Text → Option Db
  set_owner s entry_id owner_id = elim (get_acl s entry_id) [
    | none ↦ none
    | some acl ↦ set_acl s (record acl { owner = owner_id })
  ]

  unfoldable pub make_public : Db → Uuid → Option Db
  make_public s entry_id = elim (get_acl s entry_id) [
    | none ↦ none
    | some acl ↦ set_acl s (record acl { public = true })
  ]

  unfoldable pub make_private : Db → Uuid → Option Db
  make_private s entry_id = elim (get_acl s entry_id) [
    | none ↦ none
    | some acl ↦ set_acl s (record acl { public = false })
  ]
