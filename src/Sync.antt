-- ===== src/Sync.antt =====
-- internal/sync/p2p.go: the service that exchanges states with peers. A run of a handler is one step,
-- from the service before it to the one after it; what libp2p does in it are its arguments. The state
-- behind the service is an interface, `StateProvider` of sync.go.
pub mod Messages
pub mod Wire
pub mod Frames
pub mod Exchanges
pub mod Outcomes
pub mod Guards
pub mod Sessions
pub mod Connects
pub mod Adapter
pub mod Tests
use acorde.Base.{
  ℕ, ◌+◌, ◌%◌, ◌^◌, ◌≡◌, Bool, true, false, not, Option, none, some, List, [], ◌∷◌, ◌==◌,
  if◌then◌else◌,
}
use acorde.Base.Equality.{nat_eq, list_eq, list_beq}
use acorde.Base.Text.{Text}
use acorde.GoMap
use acorde.GoMap.{GoMap, GoSet, put, delete, has}
use acorde.Crdt.State.{ReplicaState}
use acorde.Allowlist.{AllowlistState, is_allowed}
use acorde.Allowlist.Packages.{PeerId, PeerPackage}
use acorde.Sync.Messages.{Message, MessageJson, msg_state_hash, msg_state_request, msg_state}
use acorde.Sync.Wire.{Writer, write_message, read_message}

pub record StateProvider (P : Type 0) : Type 0 where
  pub get_state : P → ReplicaState
  -- the provider after the call, and whether there was no error
  pub apply_state : P → ReplicaState → P × Bool
  pub state_hash : P → List ℕ

-- encoding/json on a ReplicaState. `kept` is what comes back: map keys are sorted, and what is not
-- UTF-8 is replaced.
pub record StateJson : Type 0 where
  pub marshal_state : ReplicaState → List ℕ
  pub unmarshal_state : List ℕ → Option ReplicaState
  pub kept : ReplicaState → ReplicaState
  pub unmarshal-marshal_state :
      (st : ReplicaState) → unmarshal_state (marshal_state st) ≡ some (kept st)

-- atomic.AddInt64(&n, 1); an int64 is read as its 64 bits
abbrev pub incremented : ℕ → ℕ
incremented n = (n + 1) % 2 ^ 64

pub record P2pService (P : Type 0) : Type 0 where
  pub host_id : PeerId
  pub provider : P
  pub allowlist : Option AllowlistState
  pub peers : GoSet PeerId
  pub active_syncs : GoSet Text
  pub sync_attempts : ℕ
  pub sync_successes : ℕ
  pub sync_failures : ℕ

pub data SyncError : Type 0 where
  stream_failed : SyncError
  send_hash_failed : SyncError
  read_failed : SyncError
  decode_failed : SyncError
  apply_failed : SyncError
  send_state_failed : SyncError

-- a stream to a peer: what can be written to it, and what arrives after that was sent
pub record Stream : Type 0 where
  pub writer : Writer
  pub answer : List ℕ → List ℕ

-- a call's end: the provider, the bytes sent, and the error or none
pub record Exchanged (P : Type 0) : Type 0 where
  pub provider : P
  pub sent : List ℕ
  pub error : Option SyncError

abbrev pub check_allowlist : {P : Type 0} → P2pService P → PeerId → Bool
check_allowlist s p = elim s.allowlist [ none ↦ true | some al ↦ is_allowed al p ]

abbrev pub hash_message : Text → List ℕ → Message
hash_message session hash = record {
  type = msg_state_hash;
  session_id = session;
  state_hash = hash;
  state = [];
}

abbrev state_message : Text → List ℕ → Message
state_message session bytes = record {
  type = msg_state;
  session_id = session;
  state_hash = [];
  state = bytes;
}

module _ {P : Type 0} ⦃json : MessageJson⦄ ⦃states : StateJson⦄ ⦃source : StateProvider P⦄ where
  abbrev pub full_state : Text → P → Message
  full_state session p = state_message session (states.marshal_state (source.get_state p))

  -- the switch of SyncWith on the response
  unfoldable pub handle_response : P → Writer → Text → Message → Exchanged P
  handle_response p w session resp =
      if resp.type == msg_state_hash
      then record { provider = p; sent = w.sent; error = none }
      else if resp.type == msg_state
      then elim (states.unmarshal_state resp.state) [
        | none ↦ record { provider = p; sent = w.sent; error = some decode_failed }
        | some st ↦
            let (applied, ok) = source.apply_state p st in
            record {
              provider = applied;
              sent = w.sent;
              error = if ok then none else some apply_failed;
            }
      ]
      else if resp.type == msg_state_request
      then (let (written, ok) = write_message w (full_state session p) in
          record {
            provider = p;
            sent = written.sent;
            error = if ok then none else some send_state_failed;
          })
      else record { provider = p; sent = w.sent; error = none }

  -- SyncWith from NewStream on
  unfoldable pub exchange : P → Option Stream → Text → Exchanged P
  unfolding handle_response
  exchange p none session = record { provider = p; sent = []; error = some stream_failed }
  exchange p (some stream) session =
      let (w, ok) = write_message stream.writer (hash_message session (source.state_hash p)) in
      if not ok
      then record { provider = p; sent = w.sent; error = some send_hash_failed }
      else elim (read_message (stream.answer w.sent)) [
        | none ↦ record { provider = p; sent = w.sent; error = some read_failed }
        | some (resp, _) ↦ handle_response p w session resp
      ]

  -- what handleStream answers, and the provider after it. The acknowledgement of equal hashes is
  -- overwritten by the full state, and unequal hashes have no case.
  unfoldable pub respond : P → Message → P × Option Message
  respond p msg =
      if msg.type == msg_state_hash
      then (
        p,
        if list_beq (source.state_hash p) msg.state_hash
            then (let acknowledged = hash_message msg.session_id (source.state_hash p) in
                let overwritten = full_state msg.session_id p in some overwritten)
            else none,
      )
      else if msg.type == msg_state_request
      then (p, some (full_state msg.session_id p))
      else if msg.type == msg_state
      then (let applied : P = elim (states.unmarshal_state msg.state) [
        | none ↦ p
        | some st ↦ (source.apply_state p st).0
      ] in
          (applied, some (hash_message msg.session_id (source.state_hash applied))))
      else (p, none)

  -- an incoming stream: the service after it, and what was sent back
  unfoldable pub handle_stream : P2pService P → PeerId → List ℕ → Writer → P2pService P × List ℕ
  unfolding respond
  handle_stream s remote incoming w =
      if not (check_allowlist s remote) then (s, w.sent) else elim (read_message incoming) [
        | none ↦ (s, w.sent)
        | some (msg, _) ↦
            let (p, response) = respond s.provider msg in
            (
              record s { provider = p },
              elim response [ none ↦ w.sent | some resp ↦ (write_message w resp).0.sent ],
            )
      ]

module _ {P : Type 0} ⦃ids : PeerPackage⦄ where
  -- SyncWith up to the lock's release: whether it goes on
  unfoldable pub begin_sync : P2pService P → PeerId → P2pService P × Bool
  begin_sync s peer =
      let counted : P2pService P = record s { sync_attempts = incremented s.sync_attempts } in
      if has s.active_syncs (ids.string peer)
      then (counted, false)
      else (record counted { active_syncs = put s.active_syncs (ids.string peer) tt }, true)

  -- the counters and the deferred removal at a return of SyncWith
  unfoldable pub end_sync : P2pService P → PeerId → Exchanged P → P2pService P
  end_sync s peer done =
      let released : P2pService P = record s {
        provider = done.provider;
        active_syncs = delete s.active_syncs (ids.string peer);
      } in
      elim done.error [
        | none ↦ record released { sync_successes = incremented s.sync_successes }
        | some _ ↦ record released { sync_failures = incremented s.sync_failures }
      ]

  -- HandlePeerFound: whether a sync is started. `connected` is what the host's Connect gave.
  unfoldable pub handle_peer_found : P2pService P → PeerId → Bool → P2pService P × Bool
  handle_peer_found s id connected =
      if list_beq id s.host_id
      then (s, false)
      else (let added : P2pService P = record s { peers = put s.peers id tt } in
          if connected
          then (added, true)
          else (record added { peers = delete added.peers id }, false))

module _ {P : Type 0} ⦃ids : PeerPackage⦄ ⦃json : MessageJson⦄ ⦃states : StateJson⦄
    ⦃source : StateProvider P⦄ where
  unfoldable pub sync_with :
      P2pService P → PeerId → Option Stream → Text → P2pService P × Option SyncError
  unfolding begin_sync end_sync exchange
  sync_with s peer stream session =
      let (started, free) = begin_sync s peer in
      if not free
      then (started, none)
      else (let done = exchange started.provider stream session in
          (end_sync started peer done, done.error))
