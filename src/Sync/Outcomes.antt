-- ===== src/Sync/Outcomes.antt =====
-- internal/sync/p2p.go: what a SyncWith achieves, against a service that runs the same code.
use acorde.GoMap.{has}
use acorde.Base.{
  false, ◌&&◌, ℕ, ◌≡◌, refl, ap, ◌∙◌, true, none, some, List, [], if◌then◌else◌, arith, inl, inr,
  Bool-cases,
}
use acorde.Base.Equality.{nat_eq, list_eq, list_beq}
use acorde.Base.Text.{Text}
use acorde.Allowlist.Packages.{PeerId, PeerPackage}
use acorde.Sync.Messages.{Message, MessageJson, msg_state_hash}
use acorde.Sync.Wire.{Writer, write_message, read_message, read_full}
use acorde.Sync.{
  handle_stream, sync_with, incremented, apply_failed, StateProvider, StateJson, P2pService,
  read_failed, check_allowlist, hash_message, full_state, handle_response, exchange,
}
use acorde.Sync.Exchanges.{
  sync_with_lem, fresh_writer, stream_to, Fits, sent_whole, exchange_lem, handle_stream_hash,
}

module _ ⦃json : MessageJson⦄ where
  nothing_read : read_message [] ≡ none
  unfolding read_message read_full
  nothing_read = refl

module _ {P : Type 0} ⦃ids : PeerPackage⦄ ⦃json : MessageJson⦄ ⦃states : StateJson⦄
    ⦃source : StateProvider P⦄ where
  -- what arrives from a service that got the hash
  answer_lem :
      (b : P2pService P) (from : PeerId) (out back : ℕ) (msg : Message)
      → msg.type ≡ msg_state_hash
      → Fits out msg
      → (stream_to b from out).answer (write_message (fresh_writer out) msg).0.sent ≡ (
          if check_allowlist b from && list_beq (source.state_hash b.provider) msg.state_hash
          then (write_message (fresh_writer out) (full_state msg.session_id b.provider)).0.sent
          else [])
  answer_lem b from out back msg t f =
      let (rest, _, r) = sent_whole out msg f in
      ap (λ (q : P2pService P × List ℕ). q.1)
        (handle_stream_hash b from (write_message (fresh_writer out) msg).0.sent rest msg
          (fresh_writer out) r t)

  state_applied :
      (p : P) (w : Writer) (session other : Text) (q : P)
      → handle_response p w session (full_state other q) ≡ (
          let applied = source.apply_state p (states.kept (source.get_state q)) in
          record {
            provider = applied.0;
            sent = w.sent;
            error = if applied.1 then none else some apply_failed;
          })
  unfolding handle_response
  state_applied p w session other q =
      ground (arith, states.unmarshal-marshal_state (source.get_state q))

  exchange_outcome :
      (a b : P2pService P) (room : ℕ) (session : Text)
      → check_allowlist b a.host_id ≡ true
      → Fits room (hash_message session (source.state_hash a.provider))
      → Fits room (full_state session b.provider)
      → let same = list_beq (source.state_hash b.provider) (source.state_hash a.provider) in
        let applied = source.apply_state a.provider (states.kept (source.get_state b.provider)) in
        let done = exchange a.provider (some (stream_to b a.host_id room)) session in
        (done.provider ≡ (if same then applied.0 else a.provider))
        × (done.error
            ≡ (if same then (if applied.1 then none else some apply_failed) else some read_failed))
  exchange_outcome a b room session allowed f g =
      let msg = hash_message session (source.state_hash a.provider) in
      let w = (write_message (fresh_writer room) msg).0 in
      let run = exchange_lem a.provider (stream_to b a.host_id room) room session refl f in
      let arrives = answer_lem b a.host_id room room msg refl f in
      let (rest, _, r) = sent_whole room (full_state session b.provider) g in
      elim (Bool-cases (list_beq (source.state_hash b.provider) (source.state_hash a.provider))) [
        | inl same ↦
            let read = ap read_message (arrives ∙ ground (arith, allowed, same)) ∙ r in
            ground (arith, run, read, same, state_applied a.provider w session session b.provider)
        | inr differ ↦
            let read = ap read_message (arrives ∙ ground (arith, allowed, differ)) ∙ nothing_read in
            ground (arith, run, read, differ)
      ]

  -- A service that syncs with another, which it does not sync with already, whose allow list takes
  -- it, and between which the hash and the full state fit a message. Where the hashes are equal it
  -- applies the other's full state, as JSON keeps it, and succeeds if that does; where they differ
  -- nothing is answered, so it fails, its provider is unchanged and the failures are counted one
  -- more. The provider of the other stays the same either way.
  pub sync_with-handle_stream :
      (a b : P2pService P) (room : ℕ) (session : Text)
      → has a.active_syncs (ids.string b.host_id) ≡ false
      → check_allowlist b a.host_id ≡ true
      → Fits room (hash_message session (source.state_hash a.provider))
      → Fits room (full_state session b.provider)
      → let same = list_beq (source.state_hash b.provider) (source.state_hash a.provider) in
        let applied = source.apply_state a.provider (states.kept (source.get_state b.provider)) in
        let (after, error) = sync_with a b.host_id (some (stream_to b a.host_id room)) session in
        let hash = hash_message session (source.state_hash a.provider) in
        (after.provider ≡ (if same then applied.0 else a.provider))
        × (error
            ≡ (if same then (if applied.1 then none else some apply_failed) else some read_failed))
        × (after.sync_failures
            ≡ (if same && applied.1 then a.sync_failures else incremented a.sync_failures))
        × ((handle_stream b a.host_id
              (write_message (fresh_writer room) hash).0.sent
              (fresh_writer room)).0
            ≡ b)
  sync_with-handle_stream a b room session free allowed f g =
      let stream = some (stream_to b a.host_id room) in
      let (rest, _, r) = sent_whole room (hash_message session (source.state_hash a.provider)) f in
      let hash = hash_message session (source.state_hash a.provider) in
      let answered =
        handle_stream_hash b a.host_id (write_message (fresh_writer room) hash).0.sent rest hash
          (fresh_writer room) r refl in
      ground (
        arith,
        sync_with_lem a b.host_id stream session free,
        exchange_outcome a b room session allowed f g,
        answered,
      )
