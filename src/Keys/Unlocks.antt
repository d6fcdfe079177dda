-- ===== src/Keys/Unlocks.antt =====
-- pkg/crypto/store.go: what Unlock gives after a key was stored.
use acorde.Base.{ℕ, ◌≡◌, ap, ◌∙◌, Bool, true, false, Option, some, List, length, arith}
use acorde.Base.Text.{Text}
use acorde.Allowlist.Packages.{found}
use acorde.Crypto.{Key, Aead, encrypt, decrypt, decrypt-encrypt, nonce_size}
use acorde.Keys.{
  KeyFile, KeyPackages, KeyDisk, unlocked, default_params, derive_key, initialize_with_key,
  initialize, open_key, unlock,
}

abbrev file_of : ⦃packages : KeyPackages⦄ → List ℕ → List ℕ → KeyFile
file_of ⦃packages⦄ salt cipher = record {
  salt = packages.encode_base64 salt;
  ciphertext = packages.encode_base64 cipher;
  params = default_params;
}

module _ {Disk : Type 0} ⦃packages : KeyPackages⦄ ⦃disks : KeyDisk Disk⦄ ⦃aead : Aead⦄ where
  refused :
      (d : Disk) (base : Text) (salt drawn : Option (List ℕ)) (password : List ℕ) (key : Key)
      → disks.exists d ≡ true
      → (initialize_with_key d base salt drawn password key ≡ (d, false))
        × (initialize d base (some key) salt drawn password ≡ (d, false))
  unfolding initialize_with_key initialize
  refused d base salt drawn password key there = (ground (arith, there), ground (arith, there))

  initialize-initialize_with_key :
      (d : Disk) (base : Text) (salt drawn : Option (List ℕ)) (password : List ℕ) (key : Key)
      → disks.exists d ≡ false
      → initialize d base (some key) salt drawn password
        ≡ initialize_with_key d base salt drawn password key
  unfolding initialize
  initialize-initialize_with_key d base salt drawn password key free = ground (arith, free)

  written_file :
      (d made : Disk) (base : Text) (salt drawn cipher password : List ℕ) (key : Key)
      → disks.exists d ≡ false
      → encrypt (some drawn) (derive_key password salt) key base ≡ some cipher
      → disks.make_dir d ≡ some made
      → initialize_with_key d base (some salt) (some drawn) password key
        ≡ disks.write_file made (packages.marshal_file (file_of salt cipher))
  unfolding initialize_with_key
  written_file d made base salt nonce cipher password key free sealed makes =
      ground (arith, free, sealed, makes)

  unlock_file :
      (d : Disk) (base : Text) (salt cipher password : List ℕ) (key : Key)
      → disks.read_file d ≡ found (packages.marshal_file (file_of salt cipher))
      → decrypt (derive_key password salt) cipher base ≡ some key
      → length key ≡ 32
      → unlock d base password ≡ unlocked key
  unfolding unlock open_key
  unlock_file d base salt cipher password key reads opened size = ground (
    arith,
    reads,
    packages.unmarshal-marshal_file salt cipher default_params,
    packages.decode-encode salt,
    packages.decode-encode cipher,
    opened,
    size,
  )

  -- On a disk that can be written and has no key file, with a key of 32 bytes and a nonce of 24,
  -- InitializeWithKey succeeds, and Initialize does the same with the key that it draws. Unlock
  -- with the same password and directory name then gives this key, and another call of either is
  -- refused and changes nothing, whatever its password and key.
  pub unlock-initialize :
      (d : Disk) (base : Text) (salt nonce password other : List ℕ) (key replacement : Key)
      → disks.Ready d
      → disks.exists d ≡ false
      → length key ≡ 32
      → length nonce ≡ nonce_size
      → let (next, ok) = initialize_with_key d base (some salt) (some nonce) password key in
        (ok ≡ true)
        × (initialize d base (some key) (some salt) (some nonce) password ≡ (next, ok))
        × (unlock next base password ≡ unlocked key)
        × (initialize_with_key next base (some salt) (some nonce) other replacement ≡ (next, false))
        × (initialize next base (some replacement) (some salt) (some nonce) other ≡ (next, false))
  unlock-initialize d base salt nonce password other key replacement ready free size n =
      let (cipher, sealed, opened) = decrypt-encrypt nonce (derive_key password salt) key base n in
      let (made, makes, still) = disks.make-Ready d ready in
      let (written, reads) =
        disks.write-Ready made (packages.marshal_file (file_of salt cipher)) still in
      let run = written_file d made base salt nonce cipher password key free sealed makes in
      let next = (disks.write_file made (packages.marshal_file (file_of salt cipher))).0 in
      let there = disks.exists-read next (packages.marshal_file (file_of salt cipher)) reads in
      let (again, too) = refused next base (some salt) (some nonce) other replacement there in
      (
        ap (λ r. r.1) run ∙ written,
        initialize-initialize_with_key d base (some salt) (some nonce) password key free,
        ap (λ (r : Disk × Bool). unlock r.0 base password) run
            ∙ unlock_file next base salt cipher password key reads opened size,
        ground (arith, run, again),
        ground (arith, run, too),
      )
