-- ===== src/Startup/Backend.antt =====
-- The store of internal/storage/sqlite/sqlite.go as the engine of internal/engine/engine_impl.go uses
-- it, in a database that does not fail, and the entries that it keeps over a restart.
use acorde.Base.{◌≡◌, ◌∙◌, true, Option, none, some, List, [], ==_iff, if◌then◌else◌, arith}
use acorde.Base.Equality.{nat_eq, list_eq}
use acorde.Base.Members.{mem}
use acorde.Base.Text.{Text}
use acorde.Core.Uuid.{Uuid, UuidPackage}
use acorde.Core.Entry.{Entry, Acl}
use acorde.AccessControl
use acorde.AccessControl.Packages.{JsonPackage, Database}
use acorde.Allowlist.Packages.{Read}
use acorde.Crdt.Replica
use acorde.Crdt.Replica.{Result, ok, err, is_deleted}
use acorde.Crypto.{Key}
use acorde.Storage
use acorde.Storage.{put, delete, answer}
use acorde.Storage.Sql.{Tables}
use acorde.Storage.Keeps.{written-IsTables, IsTables}
use acorde.Storage.Puts.{is_storable, written, stored, put_lem, get-put-stored}
use acorde.Startup.{new}
use acorde.Startup.Restarts.{get_entry-new}
use acorde.Engine.Backends.{Store}
use acorde.Engine.{EngineImpl}

module _ ⦃uuids : UuidPackage⦄ where
  abbrev pub put_entry : Tables → Entry → Option Tables
  put_entry t e = let (next, done) = put t e [] in if done then some next else none

  abbrev pub delete_entry : Tables → Uuid → Option Tables
  delete_entry t id =
      let (next, result) = delete t id [] in elim result [ answer _ ↦ some next | _ ↦ none ]

  pub put_entry-Ready :
      (t : Tables) (e : Entry)
      → IsTables t
      → is_storable e ≡ true
      → (next : Tables) × (put_entry t e ≡ some next) × IsTables next
  put_entry-Ready t e h storable =
      let done = put_lem t e in
      (written t e, ground (arith, done, storable), written-IsTables t e h storable)

  abbrev pub sqlite_store : Store Tables
  sqlite_store = record {
    put_entry = put_entry;
    delete_entry = delete_entry;
    Ready = IsTables;
    Storable = λ e. is_storable e ≡ true;
    put-Ready = put_entry-Ready;
  }

module _ {Db Versions Compiled : Type 0} ⦃uuids : UuidPackage⦄ ⦃json : JsonPackage⦄
    ⦃database : Database Db⦄ where
  -- Over tables that keep their invariant, in a database that does not fail and with access control
  -- lists that can be read: after an entry with times below 2^63 and distinct tags is put, a new
  -- engine's replica gives an error for it if it is deleted, and else the entry with the same tags,
  -- in any order, and the creation time that was stored first.
  pub get_entry-put :
      (t : Tables) (x : Entry) (acls : Db) (listed : List Acl) (versions : Versions)
      (key : Option Key) (node_id : Read) (fresh : Uuid)
      → IsTables t
      → is_storable x ≡ true
      → AccessControl.list acls ≡ some listed
      → (next : Tables) × (put_entry t x ≡ some next)
        × ((started : EngineImpl Db Tables Versions Compiled) × (new next [] [] acls versions key
                node_id fresh
              ≡ some started)
            × ((tags : List Text) × (Replica.get_entry started.replica x.id ≡ (
                  if x.deleted
                  then err (is_deleted x.id)
                  else ok (record (stored t x) { tags = tags })))
                × ((tag : Text) → mem tag tags ≡ mem tag x.tags)))
  get_entry-put t x acls listed versions key node_id fresh h storable a =
      let (next, done, still) = put_entry-Ready t x h storable in
      let (_, back) = get-put-stored t x x.id storable in
      let there : Storage.get next x.id [] ≡ answer (stored t x) =
        ground (arith, done, put_lem t x, storable, back, ==_iff x.id x.id) in
      let (started, made, (tags, read, same)) =
        get_entry-new {Compiled = Compiled} next acls listed versions key node_id fresh x.id still
          a in
      (
        next,
        done,
        (
          started,
          made,
          (tags, read ∙ ground (arith, there), λ tag. same tag ∙ ground (arith, there)),
        ),
      )
