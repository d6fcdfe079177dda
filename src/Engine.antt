-- ===== src/Engine.antt =====
-- internal/engine/engine_impl.go: the engine's edits and reads. A call gives the engine after it and
-- an answer, or no result where it panics; an error may come after a part of the work is done.
pub mod Backends
pub mod Changes
pub mod Access
pub mod Adds
pub mod Remote
pub mod Tests
use acorde.Base.{
  ℕ, Bool, true, false, not, ◌&&◌, Option, none, some, List, [], ◌∷◌, ◌++◌, length, ltb,
  if◌then◌else◌,
}
use acorde.Base.Text.{Text, codes}
use acorde.Core.Uuid.{Uuid, UuidPackage}
use acorde.Core.Entry.{Entry, EntryType, Acl, is_valid, zero_entry}
use acorde.Crdt.Replica
use acorde.Crdt.Replica.{Replica, Result, Error}
use acorde.AccessControl
use acorde.AccessControl.Packages.{JsonPackage, Database}
use acorde.Events
use acorde.Events.{EventBus}
use acorde.Events.Subscriptions.{Event}
use acorde.Crypto.{Key, Aead, encrypt, decrypt}
use acorde.Schema
use acorde.Schema.{JsonSchema, Registry}
use acorde.Engine.Backends.{Store, VersionStore, HookEvent}

pub record AddEntryInput : Type 0 where
  pub type : EntryType
  pub content : List ℕ
  pub tags : List Text
  pub public : Bool

pub record UpdateEntryInput : Type 0 where
  pub content : Option (List ℕ)
  pub tags : Option (List Text)

-- the engine's own `Entry`
pub record OwnedEntry : Type 0 where
  pub id : Uuid
  pub type : EntryType
  pub content : List ℕ
  pub tags : List Text
  pub created_at : ℕ
  pub updated_at : ℕ
  pub deleted : Bool
  pub owner : Text

abbrev pub to_internal_entry : Entry → OwnedEntry
to_internal_entry e = record {
  id = e.id;
  type = e.type;
  content = e.content;
  tags = e.tags;
  created_at = e.created_at;
  updated_at = e.updated_at;
  deleted = e.deleted;
  owner = [];
}

pub data EngineError : Type 0 where
  invalid_type : EngineError
  schema_failed : EngineError
  encryption_failed : EngineError
  decryption_failed : EngineError
  permission_denied : EngineError
  store_failed : EngineError
  entry_not_found : Uuid → EngineError
  entry_deleted : Uuid → EngineError

abbrev pub convert_crdt_error : Error → EngineError
convert_crdt_error (Error.not_found id) = entry_not_found id
convert_crdt_error (Error.is_deleted id) = entry_deleted id

pub data Answer {ℓ} (A : Type ℓ) : Type ℓ where
  answer : A → Answer A
  failed : EngineError → Answer A

pub record EngineImpl (Db Storage Versions Compiled : Type 0) : Type 0 where
  pub replica : Replica
  pub store : Storage
  pub key : Option Key
  pub events : EventBus
  pub schemas : Registry Compiled
  pub versions : Versions
  pub acls : Db
  -- the webhooks that were triggered, the last one first
  pub hooks : List HookEvent
  pub local_id : Text

-- what uuid.New(), the random reader and the clock of the system give during a call
pub record Draws : Type 0 where
  pub id : Uuid
  pub tokens : ℕ → Uuid
  pub random : Option (List ℕ)
  pub now : ℕ

-- the content as it is stored: encrypted where there is a key, no result for an error
abbrev pub sealed : ⦃aead : Aead⦄ → Option (List ℕ) → Option Key → List ℕ → List ℕ → Option (List ℕ)
sealed random none content aad = some content
sealed random (some key) content aad = encrypt random key content aad

-- the content as it is read
abbrev pub opened : ⦃aead : Aead⦄ → Option Key → List ℕ → List ℕ → Option (List ℕ)
opened none content aad = some content
opened (some key) content aad =
    if ltb 0 (length content) then decrypt key content aad else some content

-- the state after a call whose error is ignored
abbrev pub or_same : {A : Type 0} → A → Option A → A
or_same a none = a
or_same a (some b) = b

-- a check whose error is ignored is not passed
abbrev pub allowed : Option Bool → Bool
allowed none = false
allowed (some b) = b

-- the list that AddEntry sets
abbrev pub default_acl : Uuid → Text → Bool → ℕ → Acl
default_acl id owner public timestamp = record {
  entry_id = id;
  owner = owner;
  readers = [];
  writers = [];
  public = public;
  timestamp = timestamp;
}

module _ {Db Storage Versions Compiled : Type 0} ⦃uuids : UuidPackage⦄ ⦃json : JsonPackage⦄
    ⦃database : Database Db⦄ ⦃aead : Aead⦄ ⦃library : JsonSchema Compiled⦄
    ⦃services : Store Storage⦄ ⦃history : VersionStore Versions⦄ where
  -- the rest of AddEntry, once the content is sealed
  unfoldable pub store_new :
      Draws
      → AddEntryInput
      → EngineImpl Db Storage Versions Compiled
      → List ℕ
      → Option (EngineImpl Db Storage Versions Compiled × Answer OwnedEntry)
  store_new draws input e content =
      let (replica, core) =
        Replica.add_entry_with_id draws.tokens e.replica draws.id input.type content input.tags in
      elim (services.put_entry e.store core) [
        | none ↦ some (record e { replica = replica }, failed store_failed)
        | some store ↦
            let result : OwnedEntry = record (to_internal_entry core) {
              content = input.content;
              owner = e.local_id;
            } in
            let acl = default_acl result.id e.local_id input.public result.created_at in
            elim (Events.publish e.events (record {
              type = codes "created";
              entry_id = result.id;
              entry_type = result.type;
              timestamp = draws.now;
            })) [
              | none ↦ none
              | some events ↦ some (
                record e {
                  replica = Replica.Acls.set_acl replica acl;
                  store = store;
                  events = events;
                  versions =
                      history.save_version e.versions result.id content input.tags result.created_at
                        e.local_id;
                  acls = or_same e.acls (AccessControl.set_acl e.acls acl);
                  hooks =
                      HookEvent.created result.id result.type input.content input.tags ∷ e.hooks;
                },
                answer result,
              )
            ]
      ]

  unfoldable pub add_entry :
      Draws
      → AddEntryInput
      → EngineImpl Db Storage Versions Compiled
      → Option (EngineImpl Db Storage Versions Compiled × Answer OwnedEntry)
  unfolding store_new
  add_entry draws input e =
      if not (is_valid input.type)
      then some (e, failed invalid_type)
      else if not (Schema.validate e.schemas input.type input.content).valid
      then some (e, failed schema_failed)
      else elim (sealed draws.random e.key input.content (uuids.string draws.id)) [
        | none ↦ some (e, failed encryption_failed)
        | some content ↦ store_new draws input e content
      ]

  unfoldable pub get_entry : EngineImpl Db Storage Versions Compiled → Uuid → Answer OwnedEntry
  get_entry e id =
      if not (allowed (AccessControl.check_read e.acls id e.local_id))
      then failed permission_denied
      else elim (Replica.get_entry e.replica id) [
        | Result.err error ↦ failed (convert_crdt_error error)
        | Result.ok core ↦ elim (opened e.key core.content (uuids.string id)) [
          | none ↦ failed decryption_failed
          | some content ↦ answer (record (to_internal_entry core) {
            content = content;
            owner = elim (AccessControl.get_acl e.acls id) [ none ↦ [] | some acl ↦ acl.owner ];
          })
        ]
      ]
