-- ===== src/Engine/Access.antt =====
-- Which edits and reads of internal/engine/engine_impl.go the access control list decides.
use acorde.Base.{
  ◌≡◌, ap, Bool, true, false, Option, none, some, inl, inr, Bool-cases, [], ◌∷◌, ◌==◌,
  if◌then◌else◌, arith,
}
use acorde.Base.Equality.{nat_eq}
use acorde.Base.Text.{codes}
use acorde.Core.Uuid.{Uuid, UuidPackage}
use acorde.GoMap.{get}
use acorde.Crdt.Replica
use acorde.Crdt.Replica.{Replica, Result, is_deleted}
use acorde.Crdt.Replica.Invariant.{IsReplica}
use acorde.Crdt.Replica.Keeps.{HasTime}
use acorde.Crdt.Replica.Edits.{delete_entry-get_entry}
use acorde.Crdt.Lww.{LwwElement}
use acorde.AccessControl
use acorde.AccessControl.Packages.{JsonPackage, Database}
use acorde.Events
use acorde.Events.Keeps.{IsEventBus, publish_lem}
use acorde.Crypto.{Aead}
use acorde.Schema.{JsonSchema}
use acorde.Engine.Backends.{Store, VersionStore, HookEvent}
use acorde.Engine.Changes.{update_entry, delete_entry}
use acorde.Engine.{
  EngineImpl, UpdateEntryInput, OwnedEntry, Draws, answer, failed, permission_denied, allowed,
  get_entry,
}

-- an answer in which something was done
allowed_lem : (o : Option Bool) → allowed o ≡ true → o ≡ some true
allowed_lem none h = absurd (cc (h))
allowed_lem (some b) h = ap some h

module _ {Db Storage Versions Compiled : Type 0} ⦃uuids : UuidPackage⦄ ⦃json : JsonPackage⦄
    ⦃database : Database Db⦄ ⦃aead : Aead⦄ ⦃library : JsonSchema Compiled⦄
    ⦃services : Store Storage⦄ ⦃history : VersionStore Versions⦄
    (e : EngineImpl Db Storage Versions Compiled) (id : Uuid) where
  -- Only who may read an entry is given it.
  pub get_entry-check_read :
      (entry : OwnedEntry)
      → get_entry e id ≡ answer entry
      → AccessControl.check_read e.acls id e.local_id ≡ some true
  unfolding get_entry
  get_entry-check_read entry h =
      elim (Bool-cases (allowed (AccessControl.check_read e.acls id e.local_id))) [
        | inl c ↦ allowed_lem (AccessControl.check_read e.acls id e.local_id) c
        | inr c ↦ absurd (ground (arith, c, h))
      ]

  -- An update that succeeds was made by a peer that may write the entry.
  pub update_entry-check_write :
      (draws : Draws) (input : UpdateEntryInput) (e' : EngineImpl Db Storage Versions Compiled)
      → update_entry draws id input e ≡ some (e', answer tt)
      → AccessControl.check_write e.acls id e.local_id ≡ some true
  unfolding update_entry
  update_entry-check_write draws input e' h =
      elim (Bool-cases (allowed (AccessControl.check_write e.acls id e.local_id))) [
        | inl c ↦ allowed_lem (AccessControl.check_write e.acls id e.local_id) c
        | inr c ↦ absurd (ground (arith, c, h))
      ]

  -- The access control list does not guard a delete: a peer whose update is refused can delete the
  -- entry, where the replica and the bus keep their invariants, the clock is short of its last
  -- value, the replica holds the entry and the storage deletes it.
  pub delete_entry-unchecked :
      (draws : Draws) (input : UpdateEntryInput) (el : LwwElement) (store : Storage)
      → AccessControl.check_write e.acls id e.local_id ≡ some false
      → IsReplica e.replica
      → HasTime e.replica
      → IsEventBus e.events
      → get e.replica.entries.elements id ≡ some el
      → services.delete_entry e.store id ≡ some store
      → (update_entry draws id input e ≡ some (e, failed permission_denied))
        × ((e' : EngineImpl Db Storage Versions Compiled) × (delete_entry draws id e
              ≡ some (e', answer tt))
            × ((j : Uuid)
                → Replica.get_entry e'.replica j ≡ (
                    if id == j then Result.err (is_deleted id) else Replica.get_entry e.replica j)))
  unfolding update_entry delete_entry
  delete_entry-unchecked draws input el store refused h time bus there stored =
      let (r, done, reads) = delete_entry-get_entry e.replica h time id el there in
      let event : Events.Subscriptions.Event = record {
        type = codes "deleted";
        entry_id = id;
        entry_type = [];
        timestamp = draws.now;
      } in
      let (events, sent, _, _, _) = publish_lem e.events event bus in
      (
        ground (arith, refused),
        (
          record e {
            replica = r;
            store = store;
            events = events;
            hooks = HookEvent.deleted id ∷ e.hooks;
          },
          ground (arith, done, stored, sent),
          reads,
        ),
      )
