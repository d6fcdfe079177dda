-- ===== src/Sync/Exchanges.antt =====
-- internal/sync/p2p.go: SyncWith of one service against handleStream of another.
use acorde.Base.{
  ℕ, ◌+◌, ◌≤◌, ◌<◌, ◌≡◌, ap, sym, ◌∙◌, true, false, ◌&&◌, Option, none, some, List, [], length,
  if◌then◌else◌, arith,
}
use mathlib.Core.List.{append-nil}
use acorde.Base.Equality.{nat_eq, list_eq, list_beq}
use acorde.Base.Text.{Text}
use acorde.GoMap.{has}
use acorde.Allowlist.Packages.{PeerId, PeerPackage, Ascii}
use acorde.Sync.Messages.{Message, MessageJson, encode, msg_state_hash}
use acorde.Sync.Wire.{max_message, Writer, write_message, read_message}
use acorde.Sync.Frames.{read_message-write_message}
use acorde.Sync.{
  StateProvider, StateJson, P2pService, Stream, read_failed, incremented, check_allowlist,
  hash_message, full_state, handle_response, exchange, respond, handle_stream, begin_sync, end_sync,
  sync_with,
}

abbrev pub fresh_writer : ℕ → Writer
fresh_writer room = record { sent = []; room = room }

module _ ⦃json : MessageJson⦄ where
  -- a message that a stream takes and the other side does not refuse for its length
  pub record Fits (room : ℕ) (msg : Message) : Type 0 where
    pub bytes : List ℕ
    pub encoded : encode msg ≡ some bytes
    pub taken : 4 + length bytes ≤ room
    pub short : length bytes ≤ max_message
    pub typed : msg.type < 256
    pub ascii : Ascii msg.session_id

  -- the bytes of a message that fits, and what is read from them
  pub sent_whole :
      (room : ℕ) (msg : Message)
      → Fits room msg
      → (rest : List ℕ) × ((write_message (fresh_writer room) msg).1 ≡ true)
        × (read_message (write_message (fresh_writer room) msg).0.sent ≡ some (msg, rest))
  sent_whole room msg f =
      let (sent, s, ok, read) =
        read_message-write_message (fresh_writer room) msg f.bytes [] f.typed f.ascii f.encoded
          f.taken (omega (arith, f.short)) in
      ([], ok, ap read_message (s ∙ sym (append-nil sent)) ∙ read ∙ ground (arith, f.short))

module _ {P : Type 0} ⦃json : MessageJson⦄ ⦃states : StateJson⦄ ⦃source : StateProvider P⦄ where
  -- the stream from the service with the id `from` to the service `b`
  abbrev pub stream_to : P2pService P → PeerId → ℕ → Stream
  stream_to b from room = record {
    writer = fresh_writer room;
    answer = λ sent. (handle_stream b from sent (fresh_writer room)).1;
  }

  pub sync_with_lem :
      ⦃ids : PeerPackage⦄ (a : P2pService P) (peer : PeerId) (stream : Option Stream)
      (session : Text)
      → has a.active_syncs (ids.string peer) ≡ false
      → ((sync_with a peer stream session).1 ≡ (exchange a.provider stream session).error)
        × ((sync_with a peer stream session).0.provider
            ≡ (exchange a.provider stream session).provider)
        × ((sync_with a peer stream session).0.sync_failures
            ≡ elim (exchange a.provider stream session).error [
              | none ↦ a.sync_failures
              | some _ ↦ incremented a.sync_failures
            ])
  unfolding sync_with begin_sync end_sync
  sync_with_lem a peer stream session free = ground (arith, free)

  -- a stream on which the hash fits
  pub exchange_lem :
      (p : P) (stream : Stream) (room : ℕ) (session : Text)
      → stream.writer ≡ fresh_writer room
      → Fits room (hash_message session (source.state_hash p))
      → exchange p (some stream) session ≡ (
          let msg = hash_message session (source.state_hash p) in
          let w = (write_message (fresh_writer room) msg).0 in
          elim (read_message (stream.answer w.sent)) [
            | none ↦ record { provider = p; sent = w.sent; error = some read_failed }
            | some (resp, _) ↦ handle_response p w session resp
          ])
  unfolding exchange
  exchange_lem p stream room session e f =
      let (_, whole, _) = sent_whole room (hash_message session (source.state_hash p)) f in
      rw e (ground (arith, whole))

  pub handle_stream_hash :
      (b : P2pService P) (from : PeerId) (incoming rest : List ℕ) (msg : Message) (w : Writer)
      → read_message incoming ≡ some (msg, rest)
      → msg.type ≡ msg_state_hash
      → handle_stream b from incoming w ≡ (
        b,
        if check_allowlist b from && list_beq (source.state_hash b.provider) msg.state_hash
            then (write_message w (full_state msg.session_id b.provider)).0.sent
            else w.sent,
      )
  unfolding handle_stream respond
  handle_stream_hash b from incoming rest msg w r t = ground (arith, r, t)
