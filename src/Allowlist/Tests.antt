-- ===== src/Allowlist/Tests.antt =====
-- A disk in memory, on which the list of internal/sync/allowlist.go is saved and loaded. The
-- file holds the strings of the ids alone.
use acorde.Base.{
  ltb, ℕ, ◌<◌, ◌≡◌, refl, ap, ◌∙◌, true, none, some, List, [], ◌∷◌, map, if◌then◌else◌, arith,
}
use acorde.Base.Equality.{nat_eq, list_eq, beq_refl}
use acorde.Base.Text.{Text, codes}
use acorde.GoMap
use acorde.GoMap.{GoMap, get, put, has, assoc}
use acorde.GoMap.Laws.{get-put}
use acorde.AccessControl.Tests.{encode, decode, decode-encode, map-plain}
use acorde.Allowlist.Packages.{
  PeerId, AllowedPeer, PeerPackage, PeersJson, Files, Read, missing, found, Ascii,
}
use acorde.Allowlist.{AllowlistState, add}

-- the ids of peers are those of one byte below 100; their strings are the same
abbrev OneByte : PeerId → Type 0
OneByte id = (n : ℕ) × (id ≡ n ∷ []) × (n < 100)

abbrev clip : ℕ → ℕ
clip n = if ltb n 100 then n else 0

abbrev string_of : PeerId → Text
string_of [] = []
string_of (n ∷ rest) = clip n ∷ []

pub string_of-Ascii : (id : PeerId) → Ascii (string_of id)
string_of-Ascii [] = tt
string_of-Ascii (n ∷ rest) = (ground arith, tt)

pub decode-string_of : (id : PeerId) → OneByte id → some (string_of id) ≡ some id
decode-string_of id (n, e, small) = rw e (ground (arith, small))

instance abbrev pub bytes_ids : PeerPackage
bytes_ids = record {
  IsPeer = OneByte;
  string = string_of;
  decode = some;
  decode-string = decode-string_of;
  string-Ascii = string_of-Ascii;
}

-- the file keeps the strings of the ids alone
abbrev bare : Text → AllowedPeer
bare t = record { peer_id = t; name = []; added_at = 0; addresses = [] }

abbrev strings : List AllowedPeer → List Text
strings = map (λ (p : AllowedPeer). p.peer_id)

bare-strings :
    (l : List AllowedPeer) → map bare (strings l) ≡ map (λ (p : AllowedPeer). bare p.peer_id) l
bare-strings [] = refl
bare-strings (p ∷ l) = ap (λ r. bare p.peer_id ∷ r) (bare-strings l)

pub read_back :
    (l : List AllowedPeer)
    → some (map bare (decode (encode (strings l))))
      ≡ some (map (λ (p : AllowedPeer). bare p.peer_id) l)
read_back l =
    ap some (ap (map bare) (decode-encode (strings l) ∙ map-plain (strings l)) ∙ bare-strings l)

instance abbrev pub strings_json : PeersJson
strings_json = record {
  marshal = λ l. encode (strings l);
  unmarshal = λ b. some (map bare (decode b));
  kept = λ p. bare p.peer_id;
  unmarshal-marshal = read_back;
  kept-Ascii = λ p a. refl;
}

abbrev pub Disk : Type 0
Disk = GoMap Text (List ℕ)

abbrev pub read : Disk → Text → Read
read d path = elim (get d path) [ none ↦ missing | some b ↦ found b ]

pub read-put : (d : Disk) (path : Text) (b : List ℕ) → read (put d path b) path ≡ found b
read-put d path b = ground (arith, get-put d path path b, beq_refl path)

instance abbrev pub memory_disk : Files Disk
memory_disk = record {
  read_file = read;
  make_dirs = λ d path. some d;
  write_file = λ d path b. some (put d path b);
  Ready = λ d. Unit {0};
  make-Ready = λ d path ready. (d, refl, tt);
  write-Ready = λ d path b ready. (put d path b, refl, tt, read-put d path b);
}

abbrev pub no_peers : AllowlistState
no_peers = record { peers = GoMap.empty; path = codes "peers.json"; strict = true }

abbrev pub no_files : Disk
no_files = GoMap.empty

abbrev pub peer : PeerId
peer = 7 ∷ []

abbrev one_peer : AllowlistState
one_peer = (add no_peers no_files peer (codes "laptop") []).0
