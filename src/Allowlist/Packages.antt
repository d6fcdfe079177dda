-- ===== src/Allowlist/Packages.antt =====
-- What internal/sync/allowlist.go relies on: the peer ids of libp2p, encoding/json for its file, and
-- the files of the system. Each is an interface whose laws are the documented behaviour.
use acorde.Base.{ℕ, ◌<◌, ◌≡◌, Option, some, List, [], ◌∷◌, map}
use acorde.Base.Equality.{nat_eq}
use acorde.Base.Text.{Text}

-- peer.ID, a Go string of bytes
abbrev pub PeerId : Type 0
PeerId = Text

pub record AllowedPeer : Type 0 where
  pub peer_id : Text
  pub name : Text
  pub added_at : ℕ
  pub addresses : List Text

abbrev pub Ascii : Text → Type 0
Ascii [] = Unit
Ascii (c ∷ t) = (c < 128) × Ascii t

-- peer.ID.String, which writes base 58, and peer.Decode, which reads it. `IsPeer` says that the bytes
-- are a peer's id.
pub record PeerPackage : Type 1 where
  pub IsPeer : PeerId → Type 0
  pub string : PeerId → Text
  pub decode : Text → Option PeerId
  pub decode-string : (id : PeerId) → IsPeer id → decode (string id) ≡ some id
  pub string-Ascii : (id : PeerId) → Ascii (string id)

-- The JSON of the file. What is not UTF-8 is replaced, as `kept` does; ASCII is UTF-8.
pub record PeersJson : Type 0 where
  pub marshal : List AllowedPeer → List ℕ
  pub unmarshal : List ℕ → Option (List AllowedPeer)
  pub kept : AllowedPeer → AllowedPeer
  pub unmarshal-marshal : (l : List AllowedPeer) → unmarshal (marshal l) ≡ some (map kept l)
  pub kept-Ascii : (p : AllowedPeer) → Ascii p.peer_id → (kept p).peer_id ≡ p.peer_id

pub data Read : Type 0 where
  missing : Read
  unreadable : Read
  found : List ℕ → Read

-- os.ReadFile, os.MkdirAll of the directory of a file, and os.WriteFile. No result is an error;
-- `Ready` says that the disk can be written.
pub record Files (Disk : Type 0) : Type 1 where
  pub read_file : Disk → Text → Read
  pub make_dirs : Disk → Text → Option Disk
  pub write_file : Disk → Text → List ℕ → Option Disk
  pub Ready : Disk → Type 0
  pub make-Ready :
      (d : Disk) (path : Text) → Ready d → (d' : Disk) × (make_dirs d path ≡ some d') × Ready d'
  pub write-Ready :
      (d : Disk) (path : Text) (bytes : List ℕ)
      → Ready d
      → (d' : Disk) × (write_file d path bytes ≡ some d')
        × Ready d'
        × (read_file d' path ≡ found bytes)
