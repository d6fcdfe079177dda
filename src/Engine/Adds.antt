-- ===== src/Engine/Adds.antt =====
-- What internal/engine/engine_impl.go gives back of an entry that it has added.
use acorde.Base.{
  ℕ, ◌≡◌, ◌≤◌, refl, ◌∙◌, ap, true, Option, none, some, List, [], ◌∷◌, ◌++◌, length, ==_iff, arith,
}
use acorde.Base.Equality.{nat_eq, list_eq, list_beq_iff}
use acorde.Base.Text.{codes}
use acorde.Core.Uuid.{Uuid, UuidPackage}
use mathlib.Core.Path.{subst}
use acorde.Core.Entry.{Acl, Entry, is_valid}
use acorde.GoMap.{get}
use acorde.Crdt.Replica
use acorde.Crdt.Replica.{Replica, Result, add_entry_with_id}
use acorde.Crdt.Replica.Acls.{set_acl}
use acorde.Crdt.Replica.Invariant.{IsReplica}
use acorde.Crdt.Replica.Keeps.{HasTime}
use acorde.Crdt.Replica.Edits.{get_entry_congr}
use acorde.Crdt.Replica.Adds.{add_entry-get_entry}
use acorde.Crdt.State.Loads.{set_acl-entries, set_acl-tags}
use acorde.AccessControl
use acorde.AccessControl.{can_read}
use acorde.AccessControl.Packages.{JsonPackage, Database}
use acorde.AccessControl.Table.{stored, set_acl-get_acl}
use acorde.AccessControl.Answers.{check_read-get_acl}
use acorde.AccessControl.Peers.{can_read_lem}
use acorde.Events
use acorde.Events.Keeps.{IsEventBus, publish_lem}
use acorde.Crypto.{Key, Aead, encrypt, decrypt-encrypt, nonce_size}
use acorde.Schema
use acorde.Schema.{JsonSchema}
use acorde.Engine.Backends.{Store, VersionStore, HookEvent}
use acorde.Engine.{
  EngineImpl, AddEntryInput, OwnedEntry, Draws, answer, sealed, opened, or_same, default_acl,
  to_internal_entry, store_new, add_entry, get_entry,
}

longer-++ : (l m : List ℕ) → length l ≤ length (l ++ m)
longer-++ [] m = omega arith
longer-++ (x ∷ l) m = ground (arith, longer-++ l m)

-- what is sealed can be opened
opened-sealed :
    ⦃aead : Aead⦄
    → (nonce : List ℕ) (key : Option Key) (content aad : List ℕ) → length nonce ≡ nonce_size
    → (c : List ℕ) × (sealed (some nonce) key content aad ≡ some c)
      × (opened key c aad ≡ some content)
unfolding encrypt
opened-sealed nonce none content aad h = (content, refl, refl)
opened-sealed ⦃aead = aead⦄ nonce (some key) content aad h =
    let (c, done, back) = decrypt-encrypt nonce key content aad h in
    let long : length nonce ≤ length c =
      ground (arith, done, longer-++ nonce (aead.seal key nonce content aad)) in
    (c, done, ground (arith, back, long, h))

get_entry-set_acl :
    (r : Replica) (acl : Acl) (id : Uuid)
    → Replica.get_entry (set_acl r acl) id ≡ Replica.get_entry r id
get_entry-set_acl r acl id =
    get_entry_congr (set_acl r acl) r id (ap (λ s. get s.elements id) (set_acl-entries r acl))
      (ap (λ m. get m id) (set_acl-tags r acl))

module _ {Db Storage Versions Compiled : Type 0} ⦃uuids : UuidPackage⦄ ⦃json : JsonPackage⦄
    ⦃database : Database Db⦄ ⦃aead : Aead⦄ ⦃library : JsonSchema Compiled⦄
    ⦃services : Store Storage⦄ ⦃history : VersionStore Versions⦄
    (e : EngineImpl Db Storage Versions Compiled) (replica : IsReplica e.replica)
    (time : HasTime e.replica) (bus : IsEventBus e.events) (table : database.Ready e.acls)
    (storage : services.Ready e.store) where
  -- the owner of a list may read
  owner_reads :
      (s : Db) (acl : Acl)
      → AccessControl.get_acl s acl.entry_id ≡ some (stored acl)
      → AccessControl.check_read s acl.entry_id acl.owner ≡ some true
  owner_reads s acl there =
      check_read-get_acl s acl.entry_id (stored acl) acl.owner there
      ∙ ground (arith, can_read_lem (stored acl) acl.owner, list_beq_iff acl.owner acl.owner)

  -- An entry of a valid type that its schema accepts, and that the storage takes whatever its content,
  -- under an id without tags, is added where the table, the storage and the random source answer, the replica and the bus keep their
  -- invariants, and the clock is short of its last value. It belongs to the local peer, who can
  -- read it at once and gets back exactly the entry that AddEntry returned, its content in the
  -- clear.
  pub get_entry-add_entry :
      (draws : Draws) (input : AddEntryInput) (nonce : List ℕ)
      → is_valid input.type ≡ true
      → (Schema.validate e.schemas input.type input.content).valid ≡ true
      → draws.random ≡ some nonce
      → length nonce ≡ nonce_size
      → get e.replica.tags draws.id ≡ none
      → ((content : List ℕ)
          → services.Storable
              (add_entry_with_id draws.tokens e.replica draws.id input.type content input.tags).1)
      → (e' : EngineImpl Db Storage Versions Compiled) × (new : OwnedEntry) × (add_entry draws input
            e
          ≡ some (e', answer new))
        × (get_entry e' draws.id ≡ answer new)
        × (new.content ≡ input.content)
        × (new.owner ≡ e.local_id)
        × IsEventBus e'.events
  unfolding add_entry store_new get_entry
  get_entry-add_entry draws input nonce valid accepted random size untagged storable =
      let (content, done, back) =
        opened-sealed nonce e.key input.content (uuids.string draws.id) size in
      let (r, core, added, named, typed, held, made, _, _, reads) =
        add_entry-get_entry draws.tokens e.replica replica time draws.id input.type content
          input.tags untagged in
      let (store, put, _) =
        services.put-Ready e.store core storage
          (subst (λ (q : Replica × Entry). services.Storable q.1) added (storable content)) in
      let result : OwnedEntry = record (to_internal_entry core) {
        content = input.content;
        owner = e.local_id;
      } in
      let acl = default_acl core.id e.local_id input.public core.created_at in
      let (acls, listed, _, look) = set_acl-get_acl e.acls table acl in
      let event : Events.Subscriptions.Event = record {
        type = codes "created";
        entry_id = core.id;
        entry_type = core.type;
        timestamp = draws.now;
      } in
      let (events, sent, sound, _, _) = publish_lem e.events event bus in
      let e' : EngineImpl Db Storage Versions Compiled = record e {
        replica = set_acl r acl;
        store = store;
        events = events;
        versions =
            history.save_version e.versions core.id content input.tags core.created_at e.local_id;
        acls = or_same e.acls (AccessControl.set_acl e.acls acl);
        hooks = HookEvent.created core.id core.type input.content input.tags ∷ e.hooks;
      } in
      let kept : or_same e.acls (AccessControl.set_acl e.acls acl) ≡ acls =
        ground (arith, listed) in
      let own : AccessControl.get_acl acls core.id ≡ some (stored acl) =
        look core.id ∙ ground (arith, ==_iff core.id core.id) in
      let read : Replica.get_entry (set_acl r acl) draws.id ≡ Result.ok core =
        get_entry-set_acl r acl draws.id
        ∙ reads draws.id
        ∙ ground (arith, ==_iff draws.id draws.id) in
      (
        e',
        result,
        ground (arith, valid, accepted, random, done, added, put, sent),
        ground (arith, kept, own, read, owner_reads acls acl own, held, named, back),
        refl,
        refl,
        sound,
      )
