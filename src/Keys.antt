-- ===== src/Keys.antt =====
-- pkg/crypto/store.go: the master key in a file, encrypted with a password. Argon2, encoding/json and
-- encoding/base64 are interfaces. `location` is the directory, and `base` its last name.
pub mod Unlocks
pub mod Tests
use acorde.Base.{
  ℕ, ◌*◌, ◌≡◌, Bool, true, false, not, ◌&&◌, Option, none, some, List, ◌==◌, length, if◌then◌else◌,
}
use acorde.Base.Text.{Text}
use acorde.Allowlist.Packages.{Read, missing, unreadable, found}
use acorde.Crypto.{Key, Aead, encrypt, decrypt}

pub record Params : Type 0 where
  pub memory : ℕ
  pub iterations : ℕ
  pub parallelism : ℕ

pub record KeyFile : Type 0 where
  pub salt : Text
  pub ciphertext : Text
  pub params : Params

-- argon2.IDKey with a length of 32, and the encodings
pub record KeyPackages : Type 0 where
  pub id_key : List ℕ → List ℕ → Params → Key
  pub encode_base64 : List ℕ → Text
  pub decode_base64 : Text → Option (List ℕ)
  pub decode-encode : (bytes : List ℕ) → decode_base64 (encode_base64 bytes) ≡ some bytes
  pub marshal_file : KeyFile → List ℕ
  pub unmarshal_file : List ℕ → Option KeyFile
  -- base 64 and numbers come back as they were
  pub unmarshal-marshal_file :
      (salt ciphertext : List ℕ) (params : Params)
      → let file : KeyFile = record {
        salt = encode_base64 salt;
        ciphertext = encode_base64 ciphertext;
        params = params;
      } in
        unmarshal_file (marshal_file file) ≡ some file

-- os.Stat of the key file, os.MkdirAll of its directory, os.WriteFile and os.ReadFile of the key file.
-- What can be read is there; `Ready` says that the disk can be written.
pub record KeyDisk (Disk : Type 0) : Type 1 where
  pub exists : Disk → Bool
  pub read_file : Disk → Read
  pub make_dir : Disk → Option Disk
  -- the disk after the call, and whether there was no error
  pub write_file : Disk → List ℕ → Disk × Bool
  pub Ready : Disk → Type 0
  pub make-Ready : (d : Disk) → Ready d → (made : Disk) × (make_dir d ≡ some made) × Ready made
  pub write-Ready :
      (d : Disk) (bytes : List ℕ)
      → Ready d
      → ((write_file d bytes).1 ≡ true) × (read_file (write_file d bytes).0 ≡ found bytes)
  pub exists-read : (d : Disk) (bytes : List ℕ) → read_file d ≡ found bytes → exists d ≡ true

pub data Unlocked : Type 0 where
  unlocked : Key → Unlocked
  no_file : Unlocked
  corrupt_file : Unlocked
  incorrect_password : Unlocked
  invalid_size : Unlocked

abbrev pub default_params : Params
default_params = record { memory = 64 * 1024; iterations = 3; parallelism = 2 }

module _ ⦃packages : KeyPackages⦄ where
  -- DeriveKey of crypto.go
  abbrev pub derive_key : List ℕ → List ℕ → Key
  derive_key password salt = packages.id_key password salt default_params

module _ ⦃packages : KeyPackages⦄ ⦃aead : Aead⦄ where
  -- Unlock after its file is decoded
  unfoldable pub open_key : Text → List ℕ → KeyFile → Unlocked
  open_key base password file = elim (packages.decode_base64 file.salt) [
    | none ↦ corrupt_file
    | some salt ↦ elim (packages.decode_base64 file.ciphertext) [
      | none ↦ corrupt_file
      | some ciphertext ↦
          elim (decrypt (packages.id_key password salt file.params) ciphertext base) [
            | none ↦ incorrect_password
            | some plaintext ↦ if length plaintext == 32 then unlocked plaintext else invalid_size
          ]
    ]
  ]

module _ {Disk : Type 0} ⦃packages : KeyPackages⦄ ⦃disks : KeyDisk Disk⦄ ⦃aead : Aead⦄ where
  -- InitializeWithKey; `salt` and `random` are what the random source gives, none for an error. The
  -- disk after the call, and whether there was no error.
  unfoldable pub initialize_with_key :
      Disk → Text → Option (List ℕ) → Option (List ℕ) → List ℕ → Key → Disk × Bool
  initialize_with_key d base salt random password master_key =
      if disks.exists d then (d, false) else elim salt [
        | none ↦ (d, false)
        | some s ↦ elim (encrypt random (derive_key password s) master_key base) [
          | none ↦ (d, false)
          | some encrypted ↦
              let file : KeyFile = record {
                salt = packages.encode_base64 s;
                ciphertext = packages.encode_base64 encrypted;
                params = default_params;
              } in
              elim (disks.make_dir d) [
                | none ↦ (d, false)
                | some made ↦ disks.write_file made (packages.marshal_file file)
              ]
        ]
      ]

  -- Initialize, which draws the master key first; its other steps are the same
  unfoldable pub initialize :
      Disk → Text → Option Key → Option (List ℕ) → Option (List ℕ) → List ℕ → Disk × Bool
  unfolding initialize_with_key
  initialize d base generated salt random password =
      if disks.exists d then (d, false) else elim generated [
        | none ↦ (d, false)
        | some master_key ↦ initialize_with_key d base salt random password master_key
      ]

  unfoldable pub unlock : Disk → Text → List ℕ → Unlocked
  unfolding open_key
  unlock d base password = elim (disks.read_file d) [
    | missing ↦ no_file
    | unreadable ↦ no_file
    | found bytes ↦ elim (packages.unmarshal_file bytes) [
      | none ↦ corrupt_file
      | some file ↦ open_key base password file
    ]
  ]
