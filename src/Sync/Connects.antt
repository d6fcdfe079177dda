-- ===== src/Sync/Connects.antt =====
-- internal/sync/p2p.go: how a service starts and connects, and the tie-breaker on hashes.
use acorde.Base.{
  ◌||◌, inl, inr, Option-cases, ℕ, ◌≡◌, refl, Bool, true, false, not, Option, none, some, List, [],
  ◌∷◌, if◌then◌else◌, ltb, arith,
}
use acorde.Base.Equality.{list_beq, nat_eq, list_eq}
use acorde.Base.Ordered.{is_gt}
use acorde.Base.Text.{Text, compare_text}
use acorde.GoMap
use acorde.GoMap.Laws.{get-put}
use acorde.GoMap.{GoMap}
use acorde.Allowlist
use acorde.Allowlist.{AllowlistState, new_allowlist, is_allowed}
use acorde.Allowlist.Packages.{AllowedPeer, PeerId, PeerPackage, PeersJson, Files}
use acorde.Invites.Packages.{PeerInvite}
use acorde.Sync.{check_allowlist, P2pService}

-- github.com/multiformats/go-multiaddr: whether NewMultiaddr takes an address
pub record Multiaddrs : Type 0 where
  pub is_multiaddr : Text → Bool

pub record Config : Type 0 where
  pub listen_addrs : List Text
  pub allowlist_path : Text
  pub strict_allowlist : Bool

pub data ConnectError : Type 0 where
  invalid_peer_id : ConnectError
  not_saved : ConnectError
  no_addresses : ConnectError
  not_connected : ConnectError

module _ ⦃addrs : Multiaddrs⦄ where
  abbrev pub all_multiaddrs : List Text → Bool
  all_multiaddrs [] = true
  all_multiaddrs (a ∷ l) = if addrs.is_multiaddr a then all_multiaddrs l else false

  -- the loop that skips addresses that do not parse
  unfoldable pub multiaddrs : List Text → List Text
  multiaddrs [] = []
  multiaddrs (a ∷ l) = let rest = multiaddrs l in if addrs.is_multiaddr a then a ∷ rest else rest

module _ {P Disk : Type 0} ⦃addrs : Multiaddrs⦄ ⦃ids : PeerPackage⦄ ⦃json : PeersJson⦄
    ⦃files : Files Disk⦄ where
  -- NewP2PService; `host_id` is the id of the host that libp2p made, none for an error
  unfoldable pub new_p2p_service : Disk → P → Config → Option PeerId → Option (P2pService P)
  new_p2p_service disk provider cfg host_id =
      if not (all_multiaddrs cfg.listen_addrs) then none else elim host_id [
        | none ↦ none
        | some id ↦
            let service : Option AllowlistState → P2pService P = λ al. record {
              host_id = id;
              provider = provider;
              allowlist = al;
              peers = GoMap.empty;
              active_syncs = GoMap.empty;
              sync_attempts = 0;
              sync_successes = 0;
              sync_failures = 0;
            } in
            elim cfg.allowlist_path [
              | [] ↦ some (service none)
              | c ∷ path ↦ elim (new_allowlist disk (c ∷ path) cfg.strict_allowlist) [
                | none ↦ none
                | some al ↦ some (service (some al))
              ]
            ]
      ]

  -- ConnectPeer: the error, or none and then a sync with the peer is started. `connected` is what the
  -- host's Connect gave.
  unfoldable pub connect_peer :
      P2pService P → Disk → PeerInvite → Bool → P2pService P × Option Disk × Option ConnectError
  unfolding multiaddrs
  connect_peer s disk invite connected = elim (ids.decode invite.peer_id) [
    | none ↦ (s, some disk, some invalid_peer_id)
    | some id ↦
        let dial : P2pService P → Option Disk → P2pService P × Option Disk × Option ConnectError =
          λ t d. (
            t,
            d,
            elim (multiaddrs invite.addresses) [
              | [] ↦ some no_addresses
              | a ∷ l ↦ if connected then none else some not_connected
            ],
          ) in
        elim s.allowlist [
          | none ↦ dial s (some disk)
          | some al ↦
              let (added, saved) = Allowlist.add al disk id [] invite.addresses in
              let t : P2pService P = record s { allowlist = some added } in
              elim saved [ none ↦ (t, none, some not_saved) | some written ↦ dial t (some written) ]
        ]
  ]

-- shouldSendState: the loop over the bytes of two hashes, which ends at the shorter
abbrev should_send_state : List ℕ → List ℕ → Bool
should_send_state [] ours = false
should_send_state (a ∷ ours) [] = true
should_send_state (a ∷ ours) (b ∷ theirs) =
    if ltb b a then true else if ltb a b then false else should_send_state ours theirs

-- The tie-breaker is Go's comparison of the two hashes as strings: it holds exactly where ours is
-- the greater.
should_send_state-compare_text :
    (ours theirs : List ℕ) → should_send_state ours theirs ≡ is_gt (compare_text ours theirs)
should_send_state-compare_text [] [] = refl
should_send_state-compare_text [] (b ∷ theirs) = refl
should_send_state-compare_text (a ∷ ours) [] = refl
should_send_state-compare_text (a ∷ ours) (b ∷ theirs) =
    ground (arith, should_send_state-compare_text ours theirs)

module _ {P Disk : Type 0} ⦃addrs : Multiaddrs⦄ ⦃ids : PeerPackage⦄ ⦃json : PeersJson⦄
    ⦃files : Files Disk⦄ where
  -- After ConnectPeer for an invite whose peer id decodes, also where it gives an error, the service
  -- takes that peer, and every other as it did before.
  pub connect_peer-check_allowlist :
      (s : P2pService P) (disk : Disk) (invite : PeerInvite) (connected : Bool) (id q : PeerId)
      → ids.decode invite.peer_id ≡ some id
      → check_allowlist (connect_peer s disk invite connected).0 q
        ≡ (list_beq id q || check_allowlist s q)
  unfolding connect_peer Allowlist.add
  connect_peer-check_allowlist s disk invite connected id q e = elim (Option-cases s.allowlist) [
    | inl n ↦ ground (arith, e, n)
    | inr (al, n) ↦
        let p : AllowedPeer = record {
          peer_id = ids.string id;
          name = [];
          added_at = 0;
          addresses = invite.addresses;
        } in
        ground (arith, e, n, get-put al.peers id q p)
  ]
