-- ===== src/Engine/Changes.antt =====
-- internal/engine/engine_impl.go: UpdateEntry and DeleteEntry.
use acorde.Base.{ℕ, not, Option, none, some, List, [], ◌∷◌, if◌then◌else◌}
use acorde.Base.Text.{Text, codes}
use acorde.Core.Uuid.{Uuid, UuidPackage}
use acorde.Core.Entry.{Entry, zero_entry}
use acorde.Crdt.Replica
use acorde.Crdt.Replica.{Replica, Result, Error}
use acorde.AccessControl
use acorde.AccessControl.Packages.{JsonPackage, Database}
use acorde.Events
use acorde.Events.{EventBus}
use acorde.Crypto.{Aead}
use acorde.Schema
use acorde.Schema.{JsonSchema, Registry}
use acorde.Engine.Backends.{Store, VersionStore, HookEvent}
use acorde.Engine.{
  EngineImpl, UpdateEntryInput, Draws, Answer, answer, failed, permission_denied, schema_failed,
  encryption_failed, store_failed, convert_crdt_error, sealed, allowed,
}

module _ {Db Storage Versions Compiled : Type 0} ⦃uuids : UuidPackage⦄ ⦃json : JsonPackage⦄
    ⦃database : Database Db⦄ ⦃aead : Aead⦄ ⦃library : JsonSchema Compiled⦄
    ⦃services : Store Storage⦄ ⦃history : VersionStore Versions⦄ where
  -- the rest of UpdateEntry, once the content is sealed
  unfoldable pub store_update :
      Draws
      → Uuid
      → EngineImpl Db Storage Versions Compiled
      → List ℕ
      → List Text
      → Option (EngineImpl Db Storage Versions Compiled × Answer (Unit {0}))
  store_update draws id e content tags =
      elim (Replica.update_entry draws.tokens e.replica id (some content) (some tags)) [
        | Result.err error ↦ some (e, failed (convert_crdt_error error))
        | Result.ok replica ↦
            let core : Entry = elim (Replica.get_entry replica id) [
              | Result.err _ ↦ zero_entry
              | Result.ok c ↦ c
            ] in
            elim (services.put_entry e.store core) [
              | none ↦ some (record e { replica = replica }, failed store_failed)
              | some store ↦
                  elim (Events.publish e.events (record {
                    type = codes "updated";
                    entry_id = id;
                    entry_type = core.type;
                    timestamp = draws.now;
                  })) [
                    | none ↦ none
                    | some events ↦ some (
                      record e {
                        replica = replica;
                        store = store;
                        events = events;
                        versions =
                            history.save_version e.versions id content tags core.updated_at
                              e.local_id;
                        hooks = HookEvent.updated id core.type content tags ∷ e.hooks;
                      },
                      answer tt,
                    )
                  ]
            ]
      ]

  unfoldable pub update_entry :
      Draws
      → Uuid
      → UpdateEntryInput
      → EngineImpl Db Storage Versions Compiled
      → Option (EngineImpl Db Storage Versions Compiled × Answer (Unit {0}))
  unfolding store_update
  update_entry draws id input e =
      if not (allowed (AccessControl.check_write e.acls id e.local_id))
      then some (e, failed permission_denied)
      else elim (Replica.get_entry e.replica id) [
        | Result.err error ↦ some (e, failed (convert_crdt_error error))
        | Result.ok current ↦
            let tags : List Text = elim input.tags [ none ↦ current.tags | some given ↦ given ] in
            elim input.content [
              | none ↦ store_update draws id e current.content tags
              | some given ↦
                  if not (Schema.validate e.schemas current.type given).valid
                  then some (e, failed schema_failed)
                  else elim (sealed draws.random e.key given (uuids.string id)) [
                    | none ↦ some (e, failed encryption_failed)
                    | some content ↦ store_update draws id e content tags
                  ]
            ]
      ]

  unfoldable pub delete_entry :
      Draws
      → Uuid
      → EngineImpl Db Storage Versions Compiled
      → Option (EngineImpl Db Storage Versions Compiled × Answer (Unit {0}))
  delete_entry draws id e = elim (Replica.delete_entry e.replica id) [
    | Result.err error ↦ some (e, failed (convert_crdt_error error))
    | Result.ok replica ↦ elim (services.delete_entry e.store id) [
      | none ↦ some (record e { replica = replica }, failed store_failed)
      | some store ↦
          elim (Events.publish e.events (record {
            type = codes "deleted";
            entry_id = id;
            entry_type = [];
            timestamp = draws.now;
          })) [
            | none ↦ none
            | some events ↦ some (
              record e {
                replica = replica;
                store = store;
                events = events;
                hooks = HookEvent.deleted id ∷ e.hooks;
              },
              answer tt,
            )
          ]
    ]
  ]
