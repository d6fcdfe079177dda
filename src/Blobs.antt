-- ===== src/Blobs.antt =====
-- internal/blob/store.go: files under the hash of their content, in directories named by its first
-- two digits. SHA-256 is an interface. A CID is written in letters and digits, so that it is one name
-- of a path. Directory entries come in the order of the disk, not by name.
pub mod Files
pub mod Keeps
pub mod Runs
pub mod Answers
pub mod Tests
use acorde.Base.{
  ℕ, ◌+◌, ◌≡◌, Bool, true, false, not, Option, none, some, List, [], ◌∷◌, ◌++◌, ◌==◌, length, ltb,
  if◌then◌else◌,
}
use acorde.Base.Equality.{nat_eq, list_eq, list_beq}
use acorde.Base.Slices.{take}
use acorde.Base.Text.{Text, codes}
use acorde.GoMap
use acorde.GoMap.{GoMap, get, put}
use acorde.Blobs.Files.{FilePath, Disk, exists, make_dir, write_file, rename, remove, read_file}
use acorde.Versions.{marked}

-- hex.EncodeToString of sha256.Sum256
pub record Sha256 : Type 0 where
  pub hex_sum : List ℕ → Text
  pub length-hex_sum : (bytes : List ℕ) → length (hex_sum bytes) ≡ 64

pub data Outcome {ℓ} (A : Type ℓ) : Type ℓ where
  panicked : Outcome A
  failed : Outcome A
  done : A → Outcome A

-- the slice cid[:2] panics on a shorter one
abbrev pub blob_path : Text → Option FilePath
blob_path cid = if ltb (length cid) 2 then none else some (take 2 cid ∷ cid ∷ [])

-- path + ".tmp"
abbrev pub temporary : FilePath → FilePath
temporary [] = []
temporary (a ∷ []) = (a ++ codes ".tmp") ∷ []
temporary (a ∷ b ∷ p) = a ∷ temporary (b ∷ p)

-- the directory of a new store, with nothing in it
abbrev pub new_store : Disk
new_store = record { dirs = put GoMap.empty [] tt; files = GoMap.empty }

abbrev pub or_same : Disk → Option Disk → Disk
or_same d none = d
or_same d (some next) = next

-- Put from os.Stat on
unfoldable pub store_at : Disk → Text → FilePath → List ℕ → Disk × Outcome Text
store_at d cid path bytes =
    if exists d path then (d, done cid) else elim (write_file d (temporary path) bytes) [
      | none ↦ (d, failed)
      | some written ↦ elim (rename written (temporary path) path) [
        | none ↦ (or_same written (remove written (temporary path)), failed)
        | some final ↦ (final, done cid)
      ]
    ]

-- os.ReadDir: the names of files that look like a CID
unfoldable pub cid_names : List (FilePath × List ℕ) → List Text
cid_names [] = []
cid_names ((path, _) ∷ rest) =
    let later = cid_names rest in
    elim path [
      | [] ↦ later
      | name ∷ [] ↦ if length name == 64 then name ∷ later else later
      | name ∷ _ ∷ _ ↦ later
    ]

unfoldable pub list_blobs : Disk → List Text
unfolding cid_names
list_blobs d = cid_names d.files.entries

unfoldable has_blob : Disk → Text → Outcome Bool
has_blob d cid = elim (blob_path cid) [ none ↦ panicked | some path ↦ done (exists d path) ]

-- that the file is not there is no error
unfoldable pub delete_blob : Disk → Text → Disk × Outcome (Unit {0})
delete_blob d cid = elim (blob_path cid) [
  | none ↦ (d, panicked)
  | some path ↦ (or_same d (remove d path), done tt)
]

unfoldable size_blob : Disk → Text → Outcome ℕ
size_blob d cid = elim (blob_path cid) [
  | none ↦ panicked
  | some path ↦ elim (get d.files path) [ none ↦ failed | some bytes ↦ done (length bytes) ]
]

-- the loop of GarbageCollect, with the number of files removed so far
unfoldable pub collect : Disk → List Text → GoMap Text Bool → ℕ → Disk × Outcome ℕ
unfolding delete_blob
collect d [] referenced n = (d, done n)
collect d (cid ∷ rest) referenced n =
    let kept = collect d rest referenced n in
    let (after, outcome) = delete_blob d cid in
    let deleted = collect after rest referenced (n + 1) in
    let skipped = collect after rest referenced n in
    if marked referenced cid
    then kept
    else elim outcome [ panicked ↦ (after, panicked) | failed ↦ skipped | done _ ↦ deleted ]

unfoldable pub garbage_collect : Disk → GoMap Text Bool → Disk × Outcome ℕ
unfolding collect list_blobs
garbage_collect d referenced = collect d (list_blobs d) referenced 0

module _ ⦃sha : Sha256⦄ where
  abbrev pub compute_cid : List ℕ → Text
  compute_cid bytes = sha.hex_sum bytes

  unfoldable pub put_blob : Disk → List ℕ → Disk × Outcome Text
  unfolding store_at
  put_blob d bytes =
      let cid = compute_cid bytes in
      elim (blob_path cid) [ none ↦ (d, panicked) | some path ↦ store_at d cid path bytes ]

  unfoldable pub put_with_subdir : Disk → List ℕ → Disk × Outcome Text
  unfolding store_at
  put_with_subdir d bytes =
      let cid = compute_cid bytes in
      elim (blob_path cid) [
        | none ↦ (d, panicked)
        | some path ↦ elim (make_dir d (take 2 cid)) [
          | none ↦ (d, failed)
          | some made ↦ store_at made cid path bytes
        ]
      ]

  unfoldable pub get_blob : Disk → Text → Outcome (List ℕ)
  get_blob d cid = elim (blob_path cid) [
    | none ↦ panicked
    | some path ↦ elim (read_file d path) [
      | none ↦ failed
      | some none ↦ failed
      | some (some bytes) ↦ if list_beq (compute_cid bytes) cid then done bytes else failed
    ]
  ]
