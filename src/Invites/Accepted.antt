-- ===== src/Invites/Accepted.antt =====
-- internal/sync/invite.go: which invites ParseInvite accepts.
use acorde.Base.Members.{mem}
use acorde.Base.{
  refl, true, inl, inr, Option-cases, ℕ, ◌+◌, ◌≤◌, ◌≡◌, ◌∙◌, some, List, [], ◌∷◌, ◌++◌, length, leb,
  if◌then◌else◌, arith,
}
use acorde.Base.Equality.{nat_eq, list_eq, beq_refl}
use acorde.Base.Slices.{has_prefix-++, drop-++}
use acorde.Base.Text.{codes, Text}
use acorde.Allowlist.Packages.{PeerPackage, Ascii}
use acorde.Invites.Packages.{PeerInvite, Keys, InviteCodecs, AllAscii}
use acorde.Invites.{
  first_address, invalid_encoding, to_minimal_code, invite_prefix, Host, invite, rejected, expired,
  useful, invite_addresses, signable_data, create_invite, encode, verified, parse_invite,
}

useful-AllAscii : (n : ℕ) (l : List Text) → AllAscii l → AllAscii (useful n l)
unfolding useful
useful-AllAscii n [] h = tt
useful-AllAscii n (a ∷ l) h = ground (arith, useful-AllAscii n l h.1, useful-AllAscii (n + 1) l h.1)

invite_addresses-AllAscii : (l : List Text) → AllAscii l → AllAscii (invite_addresses l)
unfolding invite_addresses
invite_addresses-AllAscii [] h = tt
invite_addresses-AllAscii (a ∷ l) h = ground (arith, useful-AllAscii 0 (a ∷ l) h)

length-useful : (n : ℕ) (l : List Text) → n ≤ 1 → n + length (useful n l) ≤ 2
unfolding useful
length-useful n [] h = ground arith
length-useful n (a ∷ l) h = ground (arith, length-useful n l, length-useful (n + 1) l)

length-invite_addresses : (l : List Text) → length (invite_addresses l) ≤ 2
unfolding invite_addresses
length-invite_addresses [] = ground arith
length-invite_addresses (a ∷ l) = ground (arith, length-useful 0 (a ∷ l))

module _ ⦃ids : PeerPackage⦄ ⦃keys : Keys⦄ where
  -- the host's id is that of its public key, and the private key belongs to it
  pub record IsHost (h : Host keys.Public keys.Private) : Type 0 where
    pub public : keys.Public
    pub private : keys.Private
    pub has_public : h.public_key ≡ some public
    pub has_private : h.private_key ≡ some private
    pub pair : keys.IsPair private public
    pub named : keys.id_from_public public ≡ some h.id
    pub ascii : AllAscii h.addrs

  -- the invite before it is signed
  abbrev unsigned : ℕ → ℕ → Host keys.Public keys.Private → List ℕ → PeerInvite
  unsigned now expiry h bytes = record {
    peer_id = ids.string h.id;
    addresses = invite_addresses h.addrs;
    public_key = bytes;
    created_at = now;
    expires_at = now + expiry;
    signature = [];
    key = [];
  }

  create_invite_lem :
      (now expiry : ℕ) (h : Host keys.Public keys.Private) (i : PeerInvite) (k : IsHost h)
      → create_invite now expiry h ≡ some i
      → (bytes sig : List ℕ) × (keys.marshal_public k.public ≡ some bytes)
        × (keys.sign k.private (signable_data (unsigned now expiry h bytes)) ≡ some sig)
        × (i ≡ record (unsigned now expiry h bytes) { signature = sig })
  unfolding create_invite
  create_invite_lem now expiry h i k e = elim (Option-cases (keys.marshal_public k.public)) [
    | inl missing ↦ absurd (ground (arith, e, missing, k.has_public))
    | inr (bytes, m) ↦
        elim (Option-cases (keys.sign k.private (signable_data (unsigned now expiry h bytes)))) [
          | inl missing ↦ absurd (ground (arith, e, m, missing, k.has_public, k.has_private))
          | inr (sig, s) ↦ (bytes, sig, m, s, ground (arith, e, m, s, k.has_public, k.has_private))
        ]
  ]

module _ ⦃ids : PeerPackage⦄ ⦃keys : Keys⦄ ⦃codecs : InviteCodecs⦄ where
  parse_invite-encode :
      (now : ℕ) (i : PeerInvite)
      → Ascii i.peer_id
      → AllAscii i.addresses
      → (t : Text) × (encode i ≡ some t) × (parse_invite now t ≡ verified now i)
  unfolding parse_invite encode
  parse_invite-encode now i a b =
      let (bytes, m, u) = codecs.unmarshal-marshal_invite i a b in
      let text = codecs.encode_base64 bytes in
      (
        invite_prefix ++ text,
        ground (arith, m),
        ground (
          arith,
          has_prefix-++ invite_prefix text,
          drop-++ invite_prefix text,
          codecs.decode-encode_base64 bytes,
          u,
        ),
      )

  verified_created :
      (now expiry later : ℕ) (h : Host keys.Public keys.Private) (bytes sig : List ℕ) (k : IsHost h)
      → keys.marshal_public k.public ≡ some bytes
      → keys.sign k.private (signable_data (unsigned now expiry h bytes)) ≡ some sig
      → let i = record (unsigned now expiry h bytes) { signature = sig } in
        verified later i ≡ (if leb later (now + expiry) then invite i else rejected expired)
  unfolding verified
  verified_created now expiry later h bytes sig k m s = ground (
    arith,
    keys.unmarshal-marshal_public k.public bytes m,
    keys.verify-sign k.private k.public (signable_data (unsigned now expiry h bytes)) sig k.pair s,
    k.named,
    beq_refl (ids.string h.id),
  )

  -- An invite that a host creates, if its keys are there and belong together, its id is that of its
  -- public key and its addresses are ASCII, is accepted as it is until it expires and rejected as
  -- expired afterwards, and holds at most two addresses.
  pub parse_invite-create_invite :
      (now expiry later : ℕ) (h : Host keys.Public keys.Private) (i : PeerInvite)
      → IsHost h
      → create_invite now expiry h ≡ some i
      → (t : Text) × (encode i ≡ some t)
        × (parse_invite later t ≡ (if leb later (now + expiry) then invite i else rejected expired))
        × (length i.addresses ≤ 2)
  parse_invite-create_invite now expiry later h i k e =
      let (bytes, sig, m, s, shape) = create_invite_lem now expiry h i k e in
      let (t, enc, p) =
        parse_invite-encode later (record (unsigned now expiry h bytes) { signature = sig })
          (ids.string-Ascii h.id) (invite_addresses-AllAscii h.addrs k.ascii) in
      rw shape (
        t,
        enc,
        p ∙ verified_created now expiry later h bytes sig k m s,
        length-invite_addresses h.addrs,
      )

  -- An invite whose checks pass, with its id and addresses in ASCII, is accepted with any other
  -- encryption key in the place of its own: the signature does not cover that key.
  pub parse_invite_forged :
      (now : ℕ) (i : PeerInvite) (key : List ℕ)
      → verified now i ≡ invite i
      → Ascii i.peer_id
      → AllAscii i.addresses
      → (t : Text) × (encode (record i { key = key }) ≡ some t)
        × (parse_invite now t ≡ invite (record i { key = key }))
  unfolding verified
  parse_invite_forged now i key e a b =
      let (t, enc, p) = parse_invite-encode now (record i { key = key }) a b in
      (t, enc, p ∙ ground (arith, e))

mem_at : (s t : Text) → mem b'@' (s ++ codes "@" ++ t) ≡ true
mem_at [] t = refl
mem_at (x ∷ s) t = ground (arith, mem_at s t)

module _ ⦃ids : PeerPackage⦄ ⦃keys : Keys⦄ ⦃codecs : InviteCodecs⦄ where
  -- The minimal code of an invite, which its QR code holds, is never an invite for ParseInvite: the
  -- at sign of the code is no base 64.
  pub parse_invite-to_minimal_code :
      (now : ℕ) (i : PeerInvite) → parse_invite now (to_minimal_code i) ≡ rejected invalid_encoding
  unfolding parse_invite
  parse_invite-to_minimal_code now i =
      let rest = i.peer_id ++ codes "@" ++ first_address i.addresses in
      ground (
        arith,
        has_prefix-++ invite_prefix rest,
        drop-++ invite_prefix rest,
        codecs.decode_base64_at rest (mem_at i.peer_id (first_address i.addresses)),
      )
