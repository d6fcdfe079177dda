-- ===== src/Crypto.antt =====
-- pkg/crypto/crypto.go: Encrypt and Decrypt, around golang.org/x/crypto/chacha20poly1305 and the
-- system's source of random bytes, which are parameters.
use acorde.Base.{ℕ, ◌≡◌, refl, Option, none, some, List, ◌++◌, length, ltb, if◌then◌else◌}
use acorde.Base.Slices.{take, drop, take-++, drop-++, length-++}

-- a key has 32 bytes by its Go type, so that NewX accepts it
abbrev pub Key : Type 0
Key = List ℕ

abbrev pub nonce_size : ℕ
nonce_size = 24

-- XChaCha20-Poly1305. Open gives no result where the message was not sealed with the same key,
-- nonce and additional data.
pub record Aead : Type 0 where
  pub seal : Key → List ℕ → List ℕ → List ℕ → List ℕ
  pub open_sealed : Key → List ℕ → List ℕ → List ℕ → Option (List ℕ)
  pub open-seal :
      (key : Key) (nonce plaintext aad : List ℕ)
      → open_sealed key nonce (seal key nonce plaintext aad) aad ≡ some plaintext

module _ ⦃aead : Aead⦄ where
  -- `random` is what reading 24 random bytes gave, none for an error
  unfoldable pub encrypt : Option (List ℕ) → Key → List ℕ → List ℕ → Option (List ℕ)
  encrypt random key plaintext aad = elim random [
    | none ↦ none
    | some nonce ↦ some (nonce ++ aead.seal key nonce plaintext aad)
  ]

  unfoldable pub decrypt : Key → List ℕ → List ℕ → Option (List ℕ)
  decrypt key ciphertext aad =
      if ltb (length ciphertext) nonce_size
      then none
      else aead.open_sealed key (take nonce_size ciphertext) (drop nonce_size ciphertext) aad

  -- What was encrypted with a nonce of 24 bytes decrypts to itself, under the same key and
  -- additional data.
  pub decrypt-encrypt :
      (nonce : List ℕ) (key : Key) (plaintext aad : List ℕ)
      → length nonce ≡ nonce_size
      → (ciphertext : List ℕ) × (encrypt (some nonce) key plaintext aad ≡ some ciphertext)
        × (decrypt key ciphertext aad ≡ some plaintext)
  unfolding encrypt decrypt
  decrypt-encrypt nonce key plaintext aad h =
      let c = nonce ++ aead.seal key nonce plaintext aad in
      (
        c,
        refl,
        rw
            (
              ← h,
              length-++ nonce (aead.seal key nonce plaintext aad),
              take-++ nonce (aead.seal key nonce plaintext aad),
              drop-++ nonce (aead.seal key nonce plaintext aad),
            )
            (aead.open-seal key nonce plaintext aad),
      )
