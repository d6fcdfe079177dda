-- ===== src/Sync/Tests.antt =====
-- Services of internal/sync/p2p.go over a state that is its clock alone.
use acorde.Base.{
  ◌⊎◌, ℕ, ◌≡◌, refl, ap, ◌∙◌, true, false, Option, none, some, List, [], ◌∷◌, ◌++◌, arith,
}
use acorde.Base.Equality.{nat_eq, list_eq}
use acorde.Base.Text.{Text, codes}
use acorde.GoMap
use acorde.GoMap.{GoMap, GoSet, has, assoc, assign}
use acorde.AccessControl.Tests.{encode, decode, decode-encode, map-plain}
use acorde.Crdt.State.{ReplicaState}
use acorde.Allowlist.Packages.{PeerId}
use acorde.Allowlist.Tests.{bytes_ids, strings_json, memory_disk, no_peers}
use acorde.Sync.Messages.{Message, MessageJson}
use acorde.Sync.Wire.{write_message, read_message}
use acorde.Sync.Frames.{read_message-write_message}
use acorde.Sync.Exchanges.{fresh_writer, stream_to, Fits}
use acorde.Sync.Outcomes.{sync_with-handle_stream}
use acorde.Sync.Guards.{handle_stream-check_allowlist}
use acorde.Sync.Sessions.{Step, Run, IsService, Run-IsService}
use acorde.Sync.Connects.{Multiaddrs}
use acorde.Sync.{
  StateProvider, StateJson, P2pService, hash_message, full_state, check_allowlist, sync_with,
  handle_stream, begin_sync, read_failed,
}

abbrev pub of_fields : List Text → Option Message
of_fields ((t ∷ []) ∷ s ∷ h ∷ b ∷ []) =
    some (record { type = t; session_id = s; state_hash = h; state = b })
of_fields _ = none

abbrev pub fields : Message → List Text
fields m = (m.type ∷ []) ∷ m.session_id ∷ m.state_hash ∷ m.state ∷ []

instance abbrev list_messages : MessageJson
list_messages = record {
  marshal = λ m. some (encode (fields m));
  unmarshal = λ b. of_fields (decode b);
  unmarshal-marshal = λ m t a.
      (encode (fields m), refl, ap of_fields (decode-encode (fields m) ∙ map-plain (fields m)));
}

-- the state with nothing but a clock
abbrev at_time : ℕ → ReplicaState
at_time n = record { entries = []; tags = GoMap.empty; acls = GoMap.empty; clock_time = n }

abbrev read_time : List ℕ → Option ReplicaState
read_time [] = none
read_time (n ∷ _) = some (at_time n)

instance abbrev clock_json : StateJson
clock_json = record {
  marshal_state = λ st. st.clock_time ∷ [];
  unmarshal_state = read_time;
  kept = λ st. at_time st.clock_time;
  unmarshal-marshal_state = λ st. refl;
}

instance abbrev clocks : StateProvider ℕ
clocks = record {
  get_state = at_time;
  apply_state = λ n st. (st.clock_time, true);
  state_hash = λ n. n ∷ [];
}

abbrev pub service : PeerId → ℕ → P2pService ℕ
service id n = record {
  host_id = id;
  provider = n;
  allowlist = none;
  peers = GoMap.empty;
  active_syncs = GoMap.empty;
  sync_attempts = 0;
  sync_successes = 0;
  sync_failures = 0;
}

abbrev pub ann : P2pService ℕ
ann = service (7 ∷ []) 3

abbrev pub bob : P2pService ℕ
bob = service (8 ∷ []) 5

abbrev ann_id : PeerId
ann_id = 7 ∷ []

abbrev hash_of_ann : Message
hash_of_ann = hash_message (codes "s") (3 ∷ [])

hash-Fits : Fits 64 hash_of_ann
hash-Fits = record {
  bytes = encode (fields hash_of_ann);
  encoded = refl;
  taken = omega arith;
  short = omega arith;
  typed = omega arith;
  ascii = ground arith;
}

state-Fits : Fits 64 (full_state (codes "s") bob.provider)
state-Fits = record {
  bytes = encode (fields (full_state (codes "s") bob.provider));
  encoded = refl;
  taken = omega arith;
  short = omega arith;
  typed = omega arith;
  ascii = ground arith;
}

idle : has ann.active_syncs (7 ∷ []) ≡ false
unfolding assoc
idle = refl

idle_bob : has ann.active_syncs (8 ∷ []) ≡ false
unfolding assoc
idle_bob = refl

read_message-write_message_example :
    (sent : List ℕ) × ((write_message (fresh_writer 64) hash_of_ann).0.sent ≡ [] ++ sent)
    × ((write_message (fresh_writer 64) hash_of_ann).1 ≡ true)
    × (read_message (sent ++ (9 ∷ [])) ≡ some (hash_of_ann, 9 ∷ []))
read_message-write_message_example =
    read_message-write_message (fresh_writer 64) hash_of_ann (encode (fields hash_of_ann)) (9 ∷ [])
      (omega arith) (ground arith) refl (omega arith) (omega arith)

-- two services whose hashes differ
sync_with-handle_stream_example :
    ((sync_with ann (8 ∷ []) (some (stream_to bob (7 ∷ []) 64)) (codes "s")).0.provider ≡ 3)
    × ((sync_with ann (8 ∷ []) (some (stream_to bob (7 ∷ []) 64)) (codes "s")).1 ≡ some read_failed)
    × ((sync_with ann (8 ∷ []) (some (stream_to bob (7 ∷ []) 64)) (codes "s")).0.sync_failures ≡ 1)
    × ((handle_stream bob
          (7 ∷ [])
          (write_message (fresh_writer 64) hash_of_ann).0.sent
          (fresh_writer 64)).0
        ≡ bob)
sync_with-handle_stream_example =
    sync_with-handle_stream ann bob 64 (codes "s") idle_bob refl hash-Fits state-Fits

ann-IsService : IsService ann [] 0
unfolding assoc
ann-IsService = record {
  once = refl;
  active = λ name. refl;
  counted = refl;
  known = tt;
  not_self = refl;
}

abbrev busy_ann : P2pService ℕ
busy_ann = (begin_sync ann (8 ∷ [])).0

goes_on : (begin_sync ann (8 ∷ [])).1 ≡ true
unfolding begin_sync assoc
goes_on = refl

stops : (begin_sync busy_ann (8 ∷ [])).1 ≡ false
unfolding begin_sync assoc assign
stops = refl

-- a session with one peer, and an attempt at another with it
Run-IsService_example : IsService (begin_sync busy_ann (8 ∷ [])).0 ((8 ∷ []) ∷ []) 1
Run-IsService_example = Run-IsService 0 ann-IsService (
    Run.then_steps (Run.then_steps Run.stays (Step.begins (8 ∷ []) goes_on))
      (Step.skips (8 ∷ []) stops))

instance abbrev no_multiaddrs : Multiaddrs
no_multiaddrs = record { is_multiaddr = λ a. false }

abbrev strict_bob : P2pService ℕ
strict_bob = record bob { allowlist = some no_peers }

handle_stream-check_allowlist_example :
    let out = handle_stream strict_bob ann_id (1 ∷ []) (fresh_writer 64) in
    ((check_allowlist strict_bob ann_id ≡ false) × (out ≡ (strict_bob, [])))
    ⊎ ((check_allowlist strict_bob ann_id ≡ true)
        × ((out.0 ≡ strict_bob)
            ⊎ ((msg : Message) × (rest : List ℕ) × (read_message (1 ∷ []) ≡ some (msg, rest))
                × (msg.type ≡ 3)
                × (out.0 ≡ record strict_bob { provider = out.0.provider }))))
handle_stream-check_allowlist_example =
    handle_stream-check_allowlist strict_bob ann_id (1 ∷ []) (fresh_writer 64)
