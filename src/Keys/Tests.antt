-- ===== src/Keys/Tests.antt =====
-- The key file of pkg/crypto/store.go on a disk in memory.
use acorde.Base.{
  ℕ, length, ◌≡◌, refl, Bool, true, false, Option, none, some, List, [], ◌∷◌, arith, ◌++◌,
}
use acorde.Base.Slices.{take, drop, take-++, drop-++}
use acorde.Base.Text.{codes}
use acorde.Allowlist.Packages.{Read, missing, found}
use acorde.Crypto.{Key}
use acorde.Engine.Tests.{bare_aead}
use acorde.Keys.{KeyFile, KeyPackages, KeyDisk, unlocked, initialize_with_key, initialize, unlock}
use acorde.Keys.Unlocks.{unlock-initialize}
use acorde.Sharing.{bytes_of}

-- the length of the salt, the parameters, and both texts
abbrev write_fields : KeyFile → List ℕ
write_fields f =
    length f.salt ∷ f.params.memory ∷ f.params.iterations ∷ f.params.parallelism ∷ f.salt
    ++ f.ciphertext

abbrev read_fields : List ℕ → Option KeyFile
read_fields (n ∷ memory ∷ iterations ∷ parallelism ∷ texts) = some (record {
  salt = take n texts;
  ciphertext = drop n texts;
  params = record { memory = memory; iterations = iterations; parallelism = parallelism };
})
read_fields _ = none

read-write_fields : (f : KeyFile) → read_fields (write_fields f) ≡ some f
read-write_fields f = ground (arith, take-++ f.salt f.ciphertext, drop-++ f.salt f.ciphertext)

instance abbrev plain_packages : KeyPackages
plain_packages = record {
  id_key = λ password salt params. password ++ salt;
  encode_base64 = λ bytes. bytes;
  decode_base64 = λ text. some text;
  decode-encode = λ bytes. refl;
  marshal_file = write_fields;
  unmarshal_file = read_fields;
  unmarshal-marshal_file = λ salt ciphertext params.
      read-write_fields (record { salt = salt; ciphertext = ciphertext; params = params });
}

-- a disk with at most the key file
abbrev Memory : Type 0
Memory = Option (List ℕ)

abbrev holds : Memory → Bool
holds none = false
holds (some _) = true

abbrev contents : Memory → Read
contents none = missing
contents (some bytes) = found bytes

holds-contents : (d : Memory) (bytes : List ℕ) → contents d ≡ found bytes → holds d ≡ true
holds-contents none bytes e = absurd (ground (arith, e))
holds-contents (some _) bytes e = refl

instance abbrev memory : KeyDisk Memory
memory = record {
  exists = holds;
  read_file = contents;
  make_dir = λ d. some d;
  write_file = λ d bytes. (some bytes, true);
  Ready = λ d. Unit;
  make-Ready = λ d ready. (d, refl, ready);
  write-Ready = λ d bytes ready. (refl, refl);
  exists-read = holds-contents;
}

abbrev no_files : Memory
no_files = none

abbrev key : Key
key = bytes_of 32 7 []

abbrev nonce : List ℕ
nonce = bytes_of 24 0 []

unlock-initialize_example :
    let (next, ok) =
      initialize_with_key no_files (codes "v") (some (1 ∷ [])) (some nonce) (codes "pw") key in
    (ok ≡ true)
    × (initialize no_files (codes "v") (some key) (some (1 ∷ [])) (some nonce) (codes "pw")
        ≡ (next, ok))
    × (unlock next (codes "v") (codes "pw") ≡ unlocked key)
    × (initialize_with_key next (codes "v") (some (1 ∷ [])) (some nonce) (codes "other") (9 ∷ [])
        ≡ (next, false))
    × (initialize next (codes "v") (some (9 ∷ [])) (some (1 ∷ [])) (some nonce) (codes "other")
        ≡ (next, false))
unlock-initialize_example =
    unlock-initialize no_files (codes "v") (1 ∷ []) nonce (codes "pw") (codes "other") key (9 ∷ [])
      tt refl refl refl
