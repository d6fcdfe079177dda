-- ===== src/Invites/Packages.antt =====
-- What internal/sync/invite.go calls: the keys of libp2p, encoding/json and encoding/base64, as
-- interfaces whose laws are the documented behaviour.
use acorde.Base.{ℕ, ◌≡◌, Bool, true, Option, none, some, List, [], ◌∷◌}
use acorde.Base.Equality.{nat_eq, list_eq}
use acorde.Base.Members.{mem}
use acorde.Base.Text.{Text}
use acorde.Allowlist.Packages.{PeerId, Ascii}

-- times are Unix seconds, after 1970
pub record PeerInvite : Type 0 where
  pub peer_id : Text
  pub addresses : List Text
  pub public_key : List ℕ
  pub created_at : ℕ
  pub expires_at : ℕ
  pub signature : List ℕ
  pub key : List ℕ

-- the keys of github.com/libp2p/go-libp2p/core/crypto; an error of Verify is no signature
pub record Keys : Type 1 where
  pub Public : Type 0
  pub Private : Type 0
  pub marshal_public : Public → Option (List ℕ)
  pub unmarshal_public : List ℕ → Option Public
  pub sign : Private → List ℕ → Option (List ℕ)
  pub verify : Public → List ℕ → List ℕ → Bool
  pub id_from_public : Public → Option PeerId
  -- the two keys belong together
  pub IsPair : Private → Public → Type 0
  pub unmarshal-marshal_public :
      (k : Public) (bytes : List ℕ)
      → marshal_public k ≡ some bytes
      → unmarshal_public bytes ≡ some k
  pub verify-sign :
      (private : Private) (public : Public) (message sig : List ℕ)
      → IsPair private public
      → sign private message ≡ some sig
      → verify public message sig ≡ true

abbrev pub AllAscii : List Text → Type 0
AllAscii [] = Unit
AllAscii (t ∷ l) = Ascii t × AllAscii l

-- JSON keeps strings in ASCII, numbers, and bytes, which it writes in base 64; base64.RawURLEncoding
-- has no at sign
pub record InviteCodecs : Type 0 where
  pub marshal_invite : PeerInvite → Option (List ℕ)
  pub unmarshal_invite : List ℕ → Option PeerInvite
  pub encode_base64 : List ℕ → Text
  pub decode_base64 : Text → Option (List ℕ)
  pub decode-encode_base64 : (b : List ℕ) → decode_base64 (encode_base64 b) ≡ some b
  pub decode_base64_at : (t : Text) → mem (b'@') t ≡ true → decode_base64 t ≡ none
  pub unmarshal-marshal_invite :
      (i : PeerInvite)
      → Ascii i.peer_id
      → AllAscii i.addresses
      → (bytes : List ℕ) × (marshal_invite i ≡ some bytes) × (unmarshal_invite bytes ≡ some i)
