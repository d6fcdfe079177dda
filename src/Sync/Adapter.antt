-- ===== src/Sync/Adapter.antt =====
-- internal/sync/adapter.go: an engine as the state behind a sync service. crypto/sha256 is a
-- parameter.
use acorde.Base.{ℕ, Bool, true, false, List}
use acorde.Core.Uuid.{UuidPackage}
use acorde.Crdt.State.{ReplicaState}
use acorde.AccessControl.Packages.{JsonPackage, Database}
use acorde.Engine.Backends.{Store}
use acorde.Engine.{EngineImpl, Answer, answer, failed}
use acorde.Engine.Remote.{get_sync_state, apply_sync_state}
use acorde.Sync.{StateProvider, StateJson}

pub record Sha256 : Type 0 where
  pub sum : List ℕ → List ℕ

abbrev pub is_answer {ℓ} : {A : Type ℓ} → Answer A → Bool
is_answer (answer _) = true
is_answer (failed _) = false

module _ ⦃states : StateJson⦄ ⦃sha : Sha256⦄ where
  -- ComputeStateHash of p2p.go, and the adapter's StateHash
  abbrev pub compute_state_hash : ReplicaState → List ℕ
  compute_state_hash st = sha.sum (states.marshal_state st)

module _ {Db Storage Versions Compiled : Type 0} ⦃uuids : UuidPackage⦄ ⦃json : JsonPackage⦄
    ⦃database : Database Db⦄ ⦃services : Store Storage⦄ ⦃states : StateJson⦄ ⦃sha : Sha256⦄ where
  abbrev pub engine_adapter : StateProvider (EngineImpl Db Storage Versions Compiled)
  engine_adapter = record {
    get_state = get_sync_state;
    apply_state =
        λ e st. let (applied, result) = apply_sync_state e st in (applied, is_answer result);
    state_hash = λ e. compute_state_hash (get_sync_state e);
  }
