-- ===== src/Invites/Tests.antt =====
-- Invites of internal/sync/invite.go with keys whose signature is the message itself.
use acorde.Base.{
  ℕ, ◌+◌, ◌-◌, ◌≤◌, ◌≡◌, refl, ap, ◌∙◌, false, Option, none, some, List, [], ◌∷◌, map, length, ltb,
  if◌then◌else◌, arith,
}
use acorde.Base.Equality.{nat_eq, list_eq, list_beq, beq_refl}
use acorde.Base.Members.{mem}
use acorde.Base.Text.{Text, codes}
use acorde.Allowlist.Tests.{bytes_ids}
use acorde.AccessControl.Tests.{encode, decode, decode-encode, map-plain}
use acorde.Invites.Packages.{PeerInvite, Keys, InviteCodecs}
use acorde.Invites
use acorde.Invites.{
  Host, Parsed, invite, rejected, expired, create_invite, parse_invite, verified, invalid_encoding,
}
use acorde.Invites.Accepted.{IsHost, parse_invite-create_invite, parse_invite_forged}

-- a public key is its id, and a private one the same
instance abbrev plain_keys : Keys
plain_keys = record {
  Public = Text;
  Private = Text;
  marshal_public = some;
  unmarshal_public = some;
  sign = λ private message. some message;
  verify = λ public message sig. list_beq message sig;
  id_from_public = some;
  IsPair = λ private public. private ≡ public;
  unmarshal-marshal_public = λ k bytes e. ground arith;
  verify-sign = λ private public message sig pair e. ground (arith, e, beq_refl message);
}

abbrev pub fields : PeerInvite → List Text
fields i =
    i.peer_id
    ∷ i.public_key
    ∷ (i.created_at ∷ [])
    ∷ (i.expires_at ∷ [])
    ∷ i.signature
    ∷ i.key
    ∷ i.addresses

abbrev pub of_fields : List Text → Option PeerInvite
of_fields (p ∷ k ∷ (c ∷ []) ∷ (e ∷ []) ∷ s ∷ y ∷ a) = some (record {
  peer_id = p;
  addresses = a;
  public_key = k;
  created_at = c;
  expires_at = e;
  signature = s;
  key = y;
})
of_fields _ = none

-- the bytes with the at sign left out
abbrev shift : ℕ → ℕ
shift n = if ltb n 64 then n else n + 1

abbrev unshift : ℕ → ℕ
unshift n = if ltb n 64 then n else n - 1

no_at : (b : List ℕ) → mem b'@' (map shift b) ≡ false
no_at [] = refl
no_at (n ∷ b) = ground (arith, no_at b)

unshift-shift : (b : List ℕ) → map unshift (map shift b) ≡ b
unshift-shift [] = refl
unshift-shift (n ∷ b) = ground (arith, unshift-shift b)

instance abbrev list_codecs : InviteCodecs
list_codecs = record {
  marshal_invite = λ i. some (encode (fields i));
  unmarshal_invite = λ b. of_fields (decode b);
  encode_base64 = map shift;
  decode_base64 = λ t. if mem b'@' t then none else some (map unshift t);
  decode-encode_base64 = λ b. ground (arith, no_at b, unshift-shift b);
  decode_base64_at = λ t h. ground (arith, h);
  unmarshal-marshal_invite = λ i a b.
      (encode (fields i), refl, ap of_fields (decode-encode (fields i) ∙ map-plain (fields i)));
}

abbrev laptop : Host Text Text
laptop = record {
  id = 7 ∷ [];
  addrs =
      codes "/ip4/127.0.0.1"
      ∷ codes "/ip4/10.0.0.2"
      ∷ codes "/ip4/10.0.0.3"
      ∷ codes "/ip4/10.0.0.4"
      ∷ [];
  public_key = some (7 ∷ []);
  private_key = some (7 ∷ []);
}

laptop-IsHost : IsHost laptop
laptop-IsHost = record {
  public = 7 ∷ [];
  private = 7 ∷ [];
  has_public = refl;
  has_private = refl;
  pair = refl;
  named = refl;
  ascii = ground arith;
}

abbrev signed : PeerInvite
signed = record {
  peer_id = 7 ∷ [];
  addresses = codes "/ip4/10.0.0.2" ∷ codes "/ip4/10.0.0.3" ∷ [];
  public_key = 7 ∷ [];
  created_at = 100;
  expires_at = 160;
  signature = Invites.signable_data (record {
    peer_id = 7 ∷ [];
    addresses = codes "/ip4/10.0.0.2" ∷ codes "/ip4/10.0.0.3" ∷ [];
    public_key = [];
    created_at = 100;
    expires_at = 160;
    signature = [];
    key = [];
  });
  key = [];
}

created : create_invite 100 60 laptop ≡ some signed
unfolding create_invite Invites.invite_addresses Invites.useful
created = refl

accepted : verified 150 signed ≡ invite signed
unfolding verified
accepted = ground (arith, beq_refl signed.signature)

parse_invite-create_invite_example :
    (t : Text) × (Invites.encode signed ≡ some t)
    × (parse_invite 150 t ≡ invite signed)
    × (length signed.addresses ≤ 2)
parse_invite-create_invite_example =
    parse_invite-create_invite 100 60 150 laptop signed laptop-IsHost created

parse_invite_forged_example :
    (t : Text) × (Invites.encode (record signed { key = 1 ∷ [] }) ≡ some t)
    × (parse_invite 150 t ≡ invite (record signed { key = 1 ∷ [] }))
parse_invite_forged_example =
    parse_invite_forged 150 signed (1 ∷ []) accepted (ground arith) (ground arith)
