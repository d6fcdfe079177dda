-- ===== src/Sync/Guards.antt =====
-- internal/sync/p2p.go: what a stream from another peer can change.
use acorde.Base.{
  ℕ, ◌≡◌, true, false, some, List, ◌==◌, ==_iff, arith, inl, inr, ◌⊎◌, Bool-cases, Option-cases,
}
use acorde.Base.Equality.{nat_eq, list_eq}
use acorde.Allowlist.Packages.{PeerId}
use acorde.Sync.Messages.{Message, MessageJson, msg_state}
use acorde.Sync.Wire.{Writer, read_message}
use acorde.Sync.{StateProvider, StateJson, P2pService, check_allowlist, respond, handle_stream}

module _ {P : Type 0} ⦃json : MessageJson⦄ ⦃states : StateJson⦄ ⦃source : StateProvider P⦄ where
  respond_same : (p : P) (msg : Message) → (msg.type == msg_state) ≡ false → (respond p msg).0 ≡ p
  unfolding respond
  respond_same p msg t = ground (arith, t)

  -- A stream from a peer that the allow list does not take changes nothing and is answered nothing.
  -- From one that it takes, either the service stays as it is, or a state message was read and all
  -- but the provider stays as it is.
  pub handle_stream-check_allowlist :
      (s : P2pService P) (remote : PeerId) (incoming : List ℕ) (w : Writer)
      → let out = handle_stream s remote incoming w in
        ((check_allowlist s remote ≡ false) × (out ≡ (s, w.sent)))
        ⊎ ((check_allowlist s remote ≡ true)
            × ((out.0 ≡ s)
                ⊎ ((msg : Message) × (rest : List ℕ) × (read_message incoming ≡ some (msg, rest))
                    × (msg.type ≡ msg_state)
                    × (out.0 ≡ record s { provider = out.0.provider }))))
  unfolding handle_stream
  handle_stream-check_allowlist s remote incoming w = elim (Bool-cases (check_allowlist s remote)) [
    | inl taken ↦ inr (
      taken,
      elim (Option-cases (read_message incoming)) [
        | inl n ↦ inl (ground (arith, taken, n))
        | inr ((msg, rest), r) ↦ elim (Bool-cases (msg.type == msg_state)) [
          | inl t ↦ inr (msg, rest, r, (==_iff msg.type msg_state).0 t, ground (arith, taken, r))
          | inr t ↦ inl (ground (arith, taken, r, respond_same s.provider msg t))
        ]
      ],
    )
    | inr refused ↦ inl (refused, ground (arith, refused))
  ]
