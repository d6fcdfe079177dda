-- ===== src/Engine/Remote.antt =====
-- internal/engine/engine_impl.go: GetSyncState and ApplySyncState. The merged entries and lists are
-- written to the storage and to the table one by one.
use acorde.Base.{◌≡◌, refl, Bool, true, false, if◌then◌else◌, none, some, List, [], ◌∷◌, arith}
use acorde.Core.Uuid.{UuidPackage}
use acorde.Core.Entry.{Entry, Acl}
use acorde.Crdt.Replica.{list_entries}
use acorde.Crdt.Replica.Acls.{list_acls}
use acorde.Crdt.Replica.Converge.{Converged}
use acorde.Crdt.Replica.Invariant.{IsReplica}
use acorde.Crdt.State.{ReplicaState, state}
use acorde.Crdt.State.Sync.{apply_sync_replica, HasTimes, sync-Converged}
use acorde.AccessControl
use acorde.AccessControl.Packages.{JsonPackage, Database}
use acorde.AccessControl.Table.{set_acl-get_acl}
use acorde.Engine.Backends.{Store}
use acorde.Engine.{EngineImpl, Answer, answer, failed, store_failed}

module _ {Storage : Type 0} ⦃services : Store Storage⦄ where
  -- the loop of Put: the storage after it, and whether it came to its end
  unfoldable pub put_all : Storage → List Entry → Storage × Bool
  put_all s [] = (s, true)
  put_all s (entry ∷ rest) = elim (services.put_entry s entry) [
    | none ↦ (s, false)
    | some next ↦ put_all next rest
  ]

module _ {Db : Type 0} ⦃uuids : UuidPackage⦄ ⦃json : JsonPackage⦄ ⦃database : Database Db⦄ where
  -- the loop of SetACL
  unfoldable pub set_all : Db → List Acl → Db × Bool
  set_all s [] = (s, true)
  set_all s (acl ∷ rest) = elim (AccessControl.set_acl s acl) [
    | none ↦ (s, false)
    | some next ↦ set_all next rest
  ]

module _ {Db Storage Versions Compiled : Type 0} ⦃uuids : UuidPackage⦄ ⦃json : JsonPackage⦄
    ⦃database : Database Db⦄ ⦃services : Store Storage⦄ where
  abbrev pub get_sync_state : EngineImpl Db Storage Versions Compiled → ReplicaState
  get_sync_state e = state e.replica

  unfoldable pub apply_sync_state :
      EngineImpl Db Storage Versions Compiled
      → ReplicaState
      → EngineImpl Db Storage Versions Compiled × Answer (Unit {0})
  unfolding put_all set_all
  apply_sync_state e st =
      let replica = apply_sync_replica e.replica st in
      let (store, stored) = put_all e.store (list_entries replica) in
      if stored
      then (let (acls, listed) = set_all e.acls (list_acls replica) in
          (
            record e { replica = replica; store = store; acls = acls },
            if listed then answer tt else failed store_failed,
          ))
      else (record e { replica = replica; store = store }, failed store_failed)

abbrev pub AllEntries : (Entry → Type 0) → List Entry → Type 0
AllEntries P [] = Unit
AllEntries P (entry ∷ rest) = P entry × AllEntries P rest

module _ {Storage : Type 0} ⦃services : Store Storage⦄ where
  put_all_lem :
      (s : Storage) (l : List Entry)
      → services.Ready s
      → AllEntries services.Storable l
      → (put_all s l).1 ≡ true
  unfolding put_all
  put_all_lem s [] h taken = refl
  put_all_lem s (entry ∷ rest) h taken =
      let (next, done, still) = services.put-Ready s entry h taken.0 in
      ground (arith, done, put_all_lem next rest still taken.1)

module _ {Db : Type 0} ⦃uuids : UuidPackage⦄ ⦃json : JsonPackage⦄ ⦃database : Database Db⦄ where
  set_all_lem : (s : Db) (l : List Acl) → database.Ready s → (set_all s l).1 ≡ true
  unfolding set_all
  set_all_lem s [] h = refl
  set_all_lem s (acl ∷ rest) h =
      let (next, done, still, _) = set_acl-get_acl s h acl in
      ground (arith, done, set_all_lem next rest still)

module _ {Db Storage Versions Compiled : Type 0} ⦃uuids : UuidPackage⦄ ⦃json : JsonPackage⦄
    ⦃database : Database Db⦄ ⦃services : Store Storage⦄ where
  replica-apply_sync_state :
      (e : EngineImpl Db Storage Versions Compiled) (st : ReplicaState)
      → (apply_sync_state e st).0.replica ≡ apply_sync_replica e.replica st
  unfolding apply_sync_state
  replica-apply_sync_state e st = ground arith

  applied :
      (e : EngineImpl Db Storage Versions Compiled) (st : ReplicaState)
      → services.Ready e.store
      → AllEntries services.Storable (list_entries (apply_sync_replica e.replica st))
      → database.Ready e.acls
      → (apply_sync_state e st).1 ≡ answer tt
  unfolding apply_sync_state
  applied e st h taken k =
      let r = apply_sync_replica e.replica st in
      ground
        (arith, put_all_lem e.store (list_entries r) h taken, set_all_lem e.acls (list_acls r) k)

  -- Two engines whose replicas keep the invariant exchange the states that they had: both apply
  -- them without an error, where their storages and tables answer and the storages take the merged
  -- entries, and then hold replicas that
  -- agree on every id, up to ties that the tests of `Merge` do not break, if every access control
  -- list has a time.
  pub apply_sync_state-Converged :
      (d e : EngineImpl Db Storage Versions Compiled)
      → IsReplica d.replica
      → IsReplica e.replica
      → HasTimes d.replica
      → HasTimes e.replica
      → services.Ready d.store
      → services.Ready e.store
      → AllEntries services.Storable
          (list_entries (apply_sync_replica d.replica (get_sync_state e)))
      → AllEntries services.Storable
          (list_entries (apply_sync_replica e.replica (get_sync_state d)))
      → database.Ready d.acls
      → database.Ready e.acls
      → ((apply_sync_state d (get_sync_state e)).1 ≡ answer tt)
        × ((apply_sync_state e (get_sync_state d)).1 ≡ answer tt)
        × Converged
            (apply_sync_state d (get_sync_state e)).0.replica
            (apply_sync_state e (get_sync_state d)).0.replica
  apply_sync_state-Converged d e hd he td te sd se fd fe ad ae = (
    applied d (get_sync_state e) sd fd ad,
    applied e (get_sync_state d) se fe ae,
    rw
        (
          replica-apply_sync_state d (get_sync_state e),
          replica-apply_sync_state e (get_sync_state d),
        )
        (sync-Converged d.replica e.replica hd he td te),
  )
