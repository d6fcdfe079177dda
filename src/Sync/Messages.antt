-- ===== src/Sync/Messages.antt =====
-- internal/sync/sync.go: the messages of the protocol. encoding/json, which writes and reads them,
-- is an interface with its documented law.
use acorde.Base.{ℕ, ◌<◌, ◌≡◌, Option, some, List}
use acorde.Base.Text.{Text}
use acorde.Allowlist.Packages.{Ascii}

-- MessageType is a uint8
abbrev MessageType : Type 0
MessageType = ℕ

abbrev pub msg_state_hash : MessageType
msg_state_hash = 1

abbrev pub msg_state_request : MessageType
msg_state_request = 2

abbrev pub msg_state : MessageType
msg_state = 3

-- a nil slice and an empty one are one value here
pub record Message : Type 0 where
  pub type : MessageType
  pub session_id : Text
  pub state_hash : List ℕ
  pub state : List ℕ

-- json.Marshal and json.Unmarshal of a Message. Byte slices are written in base 64 and come back as
-- they were; so does a session id in ASCII and a type of one byte.
pub record MessageJson : Type 0 where
  pub marshal : Message → Option (List ℕ)
  pub unmarshal : List ℕ → Option Message
  pub unmarshal-marshal :
      (m : Message)
      → m.type < 256
      → Ascii m.session_id
      → (bytes : List ℕ) × (marshal m ≡ some bytes) × (unmarshal bytes ≡ some m)

module _ ⦃json : MessageJson⦄ where
  abbrev pub encode : Message → Option (List ℕ)
  encode m = json.marshal m

  abbrev pub decode_message : List ℕ → Option Message
  decode_message bytes = json.unmarshal bytes
