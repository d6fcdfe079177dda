-- ===== src/Startup.antt =====
-- internal/engine/engine_impl.go: New, which fills a replica from the store. Opening the files and
-- the tables is left out: the call is given the tables, and the file that keeps the node's id.
pub mod Hydrates
pub mod Recovers
pub mod Restarts
pub mod Listing
pub mod Backend
pub mod Tests
use acorde.Base.{ℕ, Bool, true, false, Option, none, some, List, [], ◌∷◌}
use acorde.Base.Text.{Text}
use acorde.Core.Uuid.{Uuid, UuidPackage}
use acorde.Core.Clock.{new_clock_with_time}
use acorde.Core.Entry.{Entry, Acl}
use acorde.AccessControl
use acorde.AccessControl.Packages.{JsonPackage, Database}
use acorde.Allowlist.Packages.{Read, missing, unreadable, found}
use acorde.Crdt.Replica.{Replica, new_replica, hydrate_entry}
use acorde.Crdt.Replica.Acls.{set_acl}
use acorde.Crypto.{Key}
use acorde.Events.{new_event_bus}
use acorde.Schema.{new_registry}
use acorde.Storage
use acorde.Storage.{ListFilter, Answer, failed, not_found, answer, get_max_timestamp}
use acorde.Storage.Sql.{Tables}
use acorde.Engine.{EngineImpl}

-- storage.ListFilter{Deleted: true}
abbrev pub with_deleted : ListFilter
with_deleted = record {
  type = none;
  tag = none;
  since = none;
  until = none;
  deleted = true;
  limit = 0;
  offset = 0;
}

module _ ⦃uuids : UuidPackage⦄ where
  -- the loop of HydrateEntry
  unfoldable pub hydrate_all : Replica → List Entry → Replica
  hydrate_all r [] = r
  hydrate_all r (entry ∷ rest) = hydrate_all (hydrate_entry r entry) rest

  -- the replica with the entries of the store, and a clock at their latest time; the faults are those
  -- of the two calls of the store
  unfoldable pub hydrated : Tables → List Bool → List Bool → Option Replica
  unfolding hydrate_all
  hydrated t faults listing = elim (get_max_timestamp t faults) [
    | none ↦ none
    | some time ↦ elim (Storage.list t with_deleted listing) [
      | failed ↦ none
      | not_found _ ↦ none
      | answer entries ↦ some (hydrate_all (new_replica (new_clock_with_time time)) entries)
    ]
  ]

-- the loop of SetACL
unfoldable pub set_acls : Replica → List Acl → Replica
set_acls r [] = r
set_acls r (acl ∷ rest) = set_acls (set_acl r acl) rest

module _ {Db Versions Compiled : Type 0} ⦃uuids : UuidPackage⦄ ⦃json : JsonPackage⦄
    ⦃database : Database Db⦄ where
  -- `id` is what uuid.New() gives
  unfoldable pub new :
      Tables
      → List Bool
      → List Bool
      → Db
      → Versions
      → Option Key
      → Read
      → Uuid
      → Option (EngineImpl Db Tables Versions Compiled)
  unfolding hydrated set_acls
  new t faults listing acls versions key node_id id = elim (hydrated t faults listing) [
    | none ↦ none
    | some replica ↦ elim (AccessControl.list acls) [
      | none ↦ none
      | some listed ↦ some (record {
        replica = set_acls replica listed;
        store = t;
        key = key;
        events = new_event_bus;
        schemas = new_registry;
        versions = versions;
        acls = acls;
        hooks = [];
        local_id = elim node_id [
          | missing ↦ uuids.string id
          | unreadable ↦ uuids.string id
          | found b ↦ b
        ];
      })
    ]
  ]
