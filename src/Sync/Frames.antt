-- ===== src/Sync/Frames.antt =====
-- internal/sync/p2p.go: what readMessage makes of what writeMessage wrote.
use acorde.Base.{
  ℕ, ◌+◌, ◌-◌, ◌≤◌, ◌<◌, ◌≡◌, ap, Bool, true, none, some, List, ◌++◌, length, ltb, leb,
  if◌then◌else◌, arith,
}
use mathlib.Core.List.{append_assoc}
use acorde.Base.Slices.{take-++, drop-++, length-++}
use acorde.Allowlist.Packages.{Ascii}
use acorde.Sync.Messages.{Message, MessageJson, encode, decode_message}
use acorde.Sync.Wire.{
  max_message, uint32, Writer, write, read_full, big_endian, from_big_endian, write_message,
  read_message,
}

from_big_endian-big_endian : (n : ℕ) → n < 4294967296 → from_big_endian (big_endian n) ≡ n
from_big_endian-big_endian n h = omega arith

read_full-++ : (bytes rest : List ℕ) → read_full (bytes ++ rest) (length bytes) ≡ some (bytes, rest)
unfolding read_full
read_full-++ bytes rest =
    ground (arith, length-++ bytes rest, take-++ bytes rest, drop-++ bytes rest)

-- what a writer sends for a message
abbrev frame : List ℕ → List ℕ
frame bytes = big_endian (uint32 (length bytes)) ++ bytes

module _ ⦃json : MessageJson⦄ where
  pub write_message-frame :
      (w : Writer) (msg : Message) (bytes : List ℕ)
      → encode msg ≡ some bytes
      → 4 + length bytes ≤ w.room
      → write_message w msg
        ≡ (record { sent = w.sent ++ frame bytes; room = w.room - 4 - length bytes }, true)
  unfolding write_message write
  write_message-frame w msg bytes e h =
      ground (arith, e, append_assoc w.sent (big_endian (uint32 (length bytes))) bytes)

  pub read_message-frame :
      (bytes rest : List ℕ)
      → length bytes < 4294967296
      → read_message (frame bytes ++ rest) ≡ (
          if ltb max_message (length bytes)
          then none
          else elim (decode_message bytes) [ none ↦ none | some msg ↦ some (msg, rest) ])
  unfolding read_message
  read_message-frame bytes rest h =
      let n = length bytes in
      ground (
        arith,
        read_full-++ (big_endian (uint32 n)) (bytes ++ rest),
        from_big_endian-big_endian n h,
        read_full-++ bytes rest,
      )

  -- A message with a type of one byte and a session id in ASCII, whose JSON has fewer than 2^32 bytes,
  -- written to a writer that takes it and its four
  -- bytes of length, is read back, with anything behind it left to read, where the JSON has at most
  -- 10 MiB; longer, it is written without an error and refused by the reader.
  pub read_message-write_message :
      (w : Writer) (msg : Message) (bytes rest : List ℕ)
      → msg.type < 256
      → Ascii msg.session_id
      → encode msg ≡ some bytes
      → 4 + length bytes ≤ w.room
      → length bytes < 4294967296
      → (sent : List ℕ) × ((write_message w msg).0.sent ≡ w.sent ++ sent)
        × ((write_message w msg).1 ≡ true)
        × (read_message (sent ++ rest)
            ≡ (if leb (length bytes) max_message then some (msg, rest) else none))
  read_message-write_message w msg bytes rest t a e room small =
      let written = write_message-frame w msg bytes e room in
      let (b, marshalled, back) = json.unmarshal-marshal msg t a in
      (
        frame bytes,
        ap (λ (p : Writer × Bool). p.0.sent) written,
        ap (λ (p : Writer × Bool). p.1) written,
        ground (arith, read_message-frame bytes rest small, marshalled, e, back),
      )
