-- ===== src/Vaults/Packages.antt =====
-- What internal/vault/manager.go relies on: encoding/json for its file, and the files of the system.
-- Each is an interface whose laws are the documented behaviour.
use acorde.Base.{false, ◌∷◌, ◌++◌, ℕ, ◌≡◌, Bool, true, Option, some, List, map}
use acorde.Base.Text.{Text, codes}
use acorde.Allowlist.Packages.{Ascii}
pub use acorde.Allowlist.Packages.{Read, missing, unreadable, found}

pub record VaultInfo : Type 0 where
  pub id : Text
  pub name : Text
  pub data_dir : Text
  pub encrypted : Bool
  pub entry_count : ℕ
  pub created_at : ℕ
  pub last_opened : ℕ

-- its strings are ASCII, which JSON keeps
pub record IsPlain (v : VaultInfo) : Type 0 where
  pub id : Ascii v.id
  pub name : Ascii v.name
  pub data_dir : Ascii v.data_dir

-- json.MarshalIndent and json.Unmarshal of the list
pub record VaultsJson : Type 0 where
  pub marshal : List VaultInfo → List ℕ
  pub unmarshal : List ℕ → Option (List VaultInfo)
  pub kept : VaultInfo → VaultInfo
  pub unmarshal-marshal : (l : List VaultInfo) → unmarshal (marshal l) ≡ some (map kept l)
  pub kept_plain : (v : VaultInfo) → IsPlain v → kept v ≡ v

-- os.ReadFile, os.MkdirAll, os.RemoveAll and os.WriteFile: the disk after the call, and whether there
-- was no error. The laws are of calls that give none, on regular files.
pub record Disks (Disk : Type 0) : Type 0 where
  pub read_file : Disk → Text → Read
  pub make_dir : Disk → Text → Disk × Bool
  pub remove_all : Disk → Text → Disk × Bool
  pub write_file : Disk → Text → List ℕ → Disk × Bool
  pub read-write :
      (d : Disk) (path : Text) (bytes : List ℕ)
      → (write_file d path bytes).1 ≡ true
      → read_file (write_file d path bytes).0 path ≡ found bytes
  -- files that are there stay
  pub read-make_dir :
      (d : Disk) (path file : Text) (bytes : List ℕ)
      → (make_dir d path).1 ≡ true
      → read_file d file ≡ found bytes
      → read_file (make_dir d path).0 file ≡ found bytes
  -- what was in a directory is not there after its removal, and nothing can be written into it
  pub read-remove_all :
      (d : Disk) (c : ℕ) (path name : Text) (bytes : List ℕ)
      → (remove_all d (c ∷ path)).1 ≡ true
      → ¬ (read_file (remove_all d (c ∷ path)).0 (c ∷ path ++ codes "/" ++ name) ≡ found bytes)
  pub write-remove_all :
      (d : Disk) (c : ℕ) (path name : Text) (bytes : List ℕ)
      → (remove_all d (c ∷ path)).1 ≡ true
      → write_file (remove_all d (c ∷ path)).0 (c ∷ path ++ codes "/" ++ name) bytes
        ≡ ((remove_all d (c ∷ path)).0, false)
