-- ===== src/Sync/Wire.antt =====
-- internal/sync/p2p.go: writeMessage and readMessage, a message behind its length. encoding/binary
-- writes the four bytes of a uint32, the high byte first. A reader is the bytes that still arrive
-- before it fails; a writer takes so many bytes before it fails.
use acorde.Base.{
  ℕ, ◌+◌, ◌-◌, ◌*◌, ◌/◌, ◌%◌, Bool, true, false, Option, none, some, List, [], ◌∷◌, ◌++◌, length,
  ltb, leb, if◌then◌else◌,
}
use acorde.Base.Slices.{take, drop}
use acorde.Sync.Messages.{Message, MessageJson, encode, decode_message}

-- 10*1024*1024
abbrev pub max_message : ℕ
max_message = 10485760

abbrev pub uint32 : ℕ → ℕ
uint32 n = n % 4294967296

pub record Writer : Type 0 where
  pub sent : List ℕ
  pub room : ℕ

-- w.Write(data): the writer after it, and whether all was written
unfoldable pub write : Writer → List ℕ → Writer × Bool
write w bytes =
    if leb (length bytes) w.room
    then (record { sent = w.sent ++ bytes; room = w.room - length bytes }, true)
    else (record { sent = w.sent ++ take w.room bytes; room = 0 }, false)

-- io.ReadFull(r, make([]byte, n)): what was read, and what is left
unfoldable pub read_full : List ℕ → ℕ → Option (List ℕ × List ℕ)
read_full incoming n =
    if ltb (length incoming) n then none else some (take n incoming, drop n incoming)

-- binary.BigEndian on a uint32
abbrev pub big_endian : ℕ → List ℕ
big_endian n = (n / 16777216) % 256 ∷ (n / 65536) % 256 ∷ (n / 256) % 256 ∷ n % 256 ∷ []

abbrev pub from_big_endian : List ℕ → ℕ
from_big_endian (a ∷ b ∷ c ∷ d ∷ _) = a * 16777216 + b * 65536 + c * 256 + d
from_big_endian _ = 0

module _ ⦃json : MessageJson⦄ where
  unfoldable pub write_message : Writer → Message → Writer × Bool
  unfolding write
  write_message w msg = elim (encode msg) [
    | none ↦ (w, false)
    | some bytes ↦
        let (headed, ok) = write w (big_endian (uint32 (length bytes))) in
        if ok then write headed bytes else (headed, false)
  ]

  -- the message, or none for an error, and what is left to read
  unfoldable pub read_message : List ℕ → Option (Message × List ℕ)
  unfolding read_full
  read_message incoming = elim (read_full incoming 4) [
    | none ↦ none
    | some (header, rest) ↦
        let n = from_big_endian header in
        if ltb max_message n then none else elim (read_full rest n) [
          | none ↦ none
          | some (bytes, left) ↦ elim (decode_message bytes) [
            | none ↦ none
            | some msg ↦ some (msg, left)
          ]
        ]
  ]
