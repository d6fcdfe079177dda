-- ===== src/Sharing.antt =====
-- internal/sharing/sharing.go: a key for each entry, given to other peers. X25519 and HKDF are
-- interfaces; reading 32 bytes of HKDF does not fail. A pointer to an entry key that the manager hands
-- out is a value, which is put back where it is changed.
pub mod Recovers
pub mod Tests
use acorde.Base.{
  ℕ, zero, suc, ◌+◌, ◌*◌, ◌/◌, ◌%◌, ◌≡◌, Bool, Option, none, some, List, [], ◌∷◌, ◌++◌, length, ltb,
  if◌then◌else◌,
}
use acorde.Base.Equality.{nat_eq}
use acorde.Base.Slices.{take}
use acorde.Base.Text.{codes}
use acorde.Core.Uuid.{Uuid}
use acorde.Crypto.{Key, Aead, encrypt, decrypt}
use acorde.GoMap
use acorde.GoMap.{GoMap, get, put}

-- a public key, 32 bytes
abbrev pub PeerId : Type 0
PeerId = List ℕ

pub record Curve : Type 0 where
  pub scalar_base_mult : List ℕ → PeerId
  pub scalar_mult : List ℕ → PeerId → List ℕ
  -- both sides of an exchange compute the same secret
  pub shared_secret :
      (a b : List ℕ) → scalar_mult a (scalar_base_mult b) ≡ scalar_mult b (scalar_base_mult a)

-- the first 32 bytes of hkdf.New(sha256.New, secret, salt, info)
pub record Hkdf : Type 0 where
  pub read_key : List ℕ → List ℕ → List ℕ → Key
  pub length-read_key : (secret salt info : List ℕ) → length (read_key secret salt info) ≡ 32

pub record KeyPair : Type 0 where
  pub private : List ℕ
  pub public : List ℕ

pub record EntryKey : Type 0 where
  pub key : Key
  pub entry_id : Uuid
  pub shared_with : List PeerId

pub record ShareableKey : Type 0 where
  pub encrypted_key : List ℕ
  pub for_peer_id : PeerId

pub record SharingManager : Type 0 where
  pub key_pair : KeyPair
  pub master_key : Key
  pub entry_keys : GoMap Uuid EntryKey

-- the last n bytes of a number, the high one first, in front of `tail`
abbrev pub bytes_of : ℕ → ℕ → List ℕ → List ℕ
bytes_of zero n tail = tail
bytes_of (suc k) n tail = bytes_of k (n / 256) (n % 256 ∷ tail)

-- entryID[:]
unfoldable pub id_bytes : Uuid → List ℕ
id_bytes id = bytes_of 16 id []

-- copy(key[:], bytes) into a new key
abbrev pub copy_key : List ℕ → Key
copy_key bytes = take 32 (bytes ++ bytes_of 32 0 [])

-- k &= 127; k |= 64, of the last byte
unfoldable clamp_last : List ℕ → List ℕ
clamp_last [] = []
clamp_last (k ∷ []) = (if ltb (k % 128) 64 then k % 128 + 64 else k % 128) ∷ []
clamp_last (k ∷ l ∷ rest) = k ∷ clamp_last (l ∷ rest)

-- k &= 248, of the first byte, and the last one
unfoldable clamp : List ℕ → List ℕ
unfolding clamp_last
clamp [] = []
clamp (k ∷ rest) = clamp_last (k / 8 * 8 ∷ rest)

-- what rand.Read gives, none for an error
unfoldable generate_key_pair : ⦃curve : Curve⦄ → Option (List ℕ) → Option KeyPair
unfolding clamp
generate_key_pair ⦃curve⦄ random = elim random [
  | none ↦ none
  | some bytes ↦
      some (record { private = clamp bytes; public = curve.scalar_base_mult (clamp bytes) })
]

unfoldable pub derive_entry_key : ⦃hkdf : Hkdf⦄ → Key → Uuid → EntryKey
derive_entry_key ⦃hkdf⦄ master_key entry_id = record {
  key = hkdf.read_key master_key (id_bytes entry_id) (codes "acorde-entry-key");
  entry_id = entry_id;
  shared_with = [];
}

module _ ⦃curve : Curve⦄ ⦃hkdf : Hkdf⦄ ⦃aead : Aead⦄ where
  abbrev pub wrap_key : List ℕ → PeerId → Uuid → Key
  wrap_key private public entry_id =
      hkdf.read_key (curve.scalar_mult private public) (id_bytes entry_id)
        (codes "acorde-share-key")

  -- `random` is the nonce that Encrypt draws
  unfoldable pub share_key_with : Option (List ℕ) → EntryKey → List ℕ → PeerId → Option ShareableKey
  share_key_with random entry_key my_private peer_public =
      elim (encrypt random (wrap_key my_private peer_public entry_key.entry_id) entry_key.key
        (id_bytes entry_key.entry_id)) [
          | none ↦ none
          | some encrypted ↦ some (record { encrypted_key = encrypted; for_peer_id = peer_public })
        ]

  unfoldable pub recover_shared_key : ShareableKey → Uuid → List ℕ → PeerId → Option Key
  recover_shared_key shared entry_id my_private sender_public =
      elim (decrypt (wrap_key my_private sender_public entry_id) shared.encrypted_key
        (id_bytes entry_id)) [ none ↦ none | some bytes ↦ some (copy_key bytes) ]

  -- the loop of ShareEntry; `draws` gives the nonce for each peer
  unfoldable pub share_all :
      (ℕ → Option (List ℕ)) → EntryKey → List ℕ → ℕ → List PeerId → Option (List ShareableKey)
  unfolding share_key_with
  share_all draws entry_key private i [] = some []
  share_all draws entry_key private i (peer ∷ peers) =
      let later = share_all draws entry_key private (i + 1) peers in
      elim (share_key_with (draws i) entry_key private peer) [
        | none ↦ none
        | some share ↦ elim later [ none ↦ none | some shares ↦ some (share ∷ shares) ]
      ]

unfoldable new_sharing_manager : ⦃curve : Curve⦄ → Option (List ℕ) → Key → Option SharingManager
unfolding generate_key_pair
new_sharing_manager random master_key = elim (generate_key_pair random) [
  | none ↦ none
  | some pair ↦ some (record { key_pair = pair; master_key = master_key; entry_keys = GoMap.empty })
]

abbrev my_peer_id : SharingManager → PeerId
my_peer_id m = m.key_pair.public

module _ ⦃curve : Curve⦄ ⦃hkdf : Hkdf⦄ ⦃aead : Aead⦄ where
  unfoldable pub get_or_create_entry_key : SharingManager → Uuid → SharingManager × EntryKey
  unfolding derive_entry_key
  get_or_create_entry_key m entry_id = elim (get m.entry_keys entry_id) [
    | some key ↦ (m, key)
    | none ↦
        let key = derive_entry_key m.master_key entry_id in
        (record m { entry_keys = put m.entry_keys entry_id key }, key)
  ]

  -- no shares are an error, which keeps the key that was made
  unfoldable pub share_entry :
      (ℕ → Option (List ℕ))
      → SharingManager
      → Uuid
      → List PeerId
      → SharingManager × Option (List ShareableKey)
  unfolding get_or_create_entry_key share_all
  share_entry draws m entry_id peers =
      let (next, key) = get_or_create_entry_key m entry_id in
      elim (share_all draws key next.key_pair.private 0 peers) [
        | none ↦ (next, none)
        | some shares ↦
            let marked : EntryKey = record key { shared_with = key.shared_with ++ peers } in
            (record next { entry_keys = put next.entry_keys entry_id marked }, some shares)
      ]
