-- ===== src/Invites.antt =====
-- internal/sync/invite.go: signed invites to connect to a peer.
pub mod Packages
pub mod Accepted
pub mod Tests
use acorde.Base.{
  ℕ, ◌+◌, Bool, true, false, not, ◌&&◌, ◌||◌, Option, none, some, List, [], ◌∷◌, ◌++◌, length, ltb,
  leb, if◌then◌else◌,
}
use acorde.Base.Equality.{nat_eq, list_eq, list_beq}
use acorde.Base.Slices.{drop, has_prefix, contains, join}
use acorde.Base.Text.{Text, codes, decimal}
use acorde.Allowlist.Packages.{PeerId, PeerPackage}
use acorde.Invites.Packages.{PeerInvite, Keys, InviteCodecs}

abbrev pub invite_prefix : Text
invite_prefix = codes "acorde://"

-- what a libp2p host and its peerstore know of the host itself
pub record Host (Public Private : Type 0) : Type 0 where
  pub id : PeerId
  pub addrs : List Text
  pub public_key : Option Public
  pub private_key : Option Private

pub data InviteError : Type 0 where
  missing_prefix : InviteError
  invalid_encoding : InviteError
  invalid_data : InviteError
  expired : InviteError
  invalid_public_key : InviteError
  invalid_signature : InviteError
  no_peer_id : InviteError
  peer_id_mismatch : InviteError

pub data Parsed : Type 0 where
  invite : PeerInvite → Parsed
  rejected : InviteError → Parsed

abbrev is_loopback : Text → Bool
is_loopback addr = contains addr (codes "127.0.0.1") || contains addr (codes "::1")

-- the loop over the addresses, which stops at the second that it takes
unfoldable pub useful : ℕ → List Text → List Text
useful taken [] = []
useful taken (addr ∷ rest) =
    let later = useful (taken + 1) rest in
    let skipped = useful taken rest in
    if is_loopback addr then skipped else addr ∷ (if leb 2 (taken + 1) then [] else later)

unfoldable pub invite_addresses : List Text → List Text
unfolding useful
invite_addresses [] = []
invite_addresses (addr ∷ rest) =
    let found = useful 0 (addr ∷ rest) in elim found [ [] ↦ addr ∷ [] | a ∷ l ↦ a ∷ l ]

abbrev pub signable_data : PeerInvite → List ℕ
signable_data i =
    i.peer_id
    ++ codes "|"
    ++ join (codes ",") i.addresses
    ++ codes "|"
    ++ decimal i.created_at
    ++ codes "|"
    ++ decimal i.expires_at

abbrev is_expired : ℕ → PeerInvite → Bool
is_expired now i = ltb i.expires_at now

abbrev pub first_address : List Text → Text
first_address [] = []
first_address (a ∷ _) = a

abbrev pub to_minimal_code : PeerInvite → Text
to_minimal_code i = invite_prefix ++ i.peer_id ++ codes "@" ++ first_address i.addresses

module _ ⦃ids : PeerPackage⦄ ⦃keys : Keys⦄ where
  -- `now` and `expiry` in seconds; no result is an error
  unfoldable pub create_invite : ℕ → ℕ → Host keys.Public keys.Private → Option PeerInvite
  unfolding invite_addresses
  create_invite now expiry h = elim h.public_key [
    | none ↦ none
    | some public ↦ elim (keys.marshal_public public) [
      | none ↦ none
      | some bytes ↦
          let unsigned : PeerInvite = record {
            peer_id = ids.string h.id;
            addresses = invite_addresses h.addrs;
            public_key = bytes;
            created_at = now;
            expires_at = now + expiry;
            signature = [];
            key = [];
          } in
          elim h.private_key [
            | none ↦ none
            | some private ↦ elim (keys.sign private (signable_data unsigned)) [
              | none ↦ none
              | some sig ↦ some (record unsigned { signature = sig })
            ]
          ]
    ]
  ]

module _ ⦃codecs : InviteCodecs⦄ where
  unfoldable pub encode : PeerInvite → Option Text
  encode i = elim (codecs.marshal_invite i) [
    | none ↦ none
    | some bytes ↦ some (invite_prefix ++ codecs.encode_base64 bytes)
  ]

module _ ⦃ids : PeerPackage⦄ ⦃keys : Keys⦄ ⦃codecs : InviteCodecs⦄ where
  -- the checks of ParseInvite on the decoded invite
  unfoldable pub verified : ℕ → PeerInvite → Parsed
  verified now i =
      if is_expired now i then rejected expired else elim (keys.unmarshal_public i.public_key) [
        | none ↦ rejected invalid_public_key
        | some public ↦
            if not (keys.verify public (signable_data i) i.signature)
            then rejected invalid_signature
            else elim (keys.id_from_public public) [
              | none ↦ rejected no_peer_id
              | some derived ↦
                  if list_beq (ids.string derived) i.peer_id
                  then invite i
                  else rejected peer_id_mismatch
            ]
      ]

  unfoldable pub parse_invite : ℕ → Text → Parsed
  unfolding verified
  parse_invite now s =
      if not (has_prefix s invite_prefix)
      then rejected missing_prefix
      else elim (codecs.decode_base64 (drop (length invite_prefix) s)) [
        | none ↦ rejected invalid_encoding
        | some bytes ↦ elim (codecs.unmarshal_invite bytes) [
          | none ↦ rejected invalid_data
          | some i ↦ verified now i
        ]
      ]

-- the result of ToPeerAddrInfo is the id alone: the addresses are left for later
abbrev to_peer_addr_info : ⦃ids : PeerPackage⦄ → PeerInvite → Option PeerId
to_peer_addr_info ⦃ids⦄ i = ids.decode i.peer_id
