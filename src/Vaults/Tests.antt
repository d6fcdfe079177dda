-- ===== src/Vaults/Tests.antt =====
-- Vaults of internal/vault/manager.go on a disk in memory, with a file that holds names alone.
mod Memory
use acorde.Base.{
  suc, ℕ, ◌≡◌, refl, ap, ◌∙◌, Bool, true, false, none, some, List, [], ◌∷◌, ◌++◌, map,
  if◌then◌else◌, arith,
}
use acorde.Base.Equality.{nat_eq, list_eq, list_beq}
use acorde.Base.Slices.{has_prefix}
use acorde.Base.Text.{Text, codes}
use acorde.GoMap
use acorde.GoMap.{GoMap, get, put, has, assoc, assign}
use acorde.AccessControl.Tests.{encode, decode, decode-encode, map-plain}
use acorde.Allowlist.Tests.{Disk, read, read-put}
use acorde.Vaults.Packages.{VaultInfo, VaultsJson, found}
use acorde.Vaults.Tests.Memory.{Folders, memory_disks, empty_home}
use acorde.Vaults.{
  Manager, first, named, is_some, get_vault, new_vault, create, rename, save_vaults, delete_vault,
}
use acorde.Vaults.Keeps.{IsManager, Step, Run, Run-IsManager}
use acorde.Vaults.Answers.{get_vault-create, delete_vault-create}

abbrev pub flag : Bool → Text
flag true = 1 ∷ []
flag false = 0 ∷ []

abbrev pub fields : VaultInfo → List Text
fields v =
    v.id
    ∷ v.name
    ∷ v.data_dir
    ∷ flag v.encrypted
    ∷ (v.entry_count ∷ v.created_at ∷ v.last_opened ∷ [])
    ∷ []

abbrev all_fields : List VaultInfo → List Text
all_fields [] = []
all_fields (v ∷ l) =
    v.id
    ∷ v.name
    ∷ v.data_dir
    ∷ flag v.encrypted
    ∷ (v.entry_count ∷ v.created_at ∷ v.last_opened ∷ [])
    ∷ all_fields l

abbrev of_flag : Text → Bool
of_flag (suc _ ∷ _) = true
of_flag _ = false

abbrev pub of_fields : List Text → List VaultInfo
of_fields (i ∷ n ∷ d ∷ f ∷ (e ∷ c ∷ o ∷ []) ∷ rest) =
    (record {
      id = i;
      name = n;
      data_dir = d;
      encrypted = of_flag f;
      entry_count = e;
      created_at = c;
      last_opened = o;
    })
    ∷ of_fields rest
of_fields _ = []

of_flag-flag : (b : Bool) → of_flag (flag b) ≡ b
of_flag-flag true = refl
of_flag-flag false = refl

abbrev as_is : VaultInfo → VaultInfo
as_is v = v

fields_back : (l : List VaultInfo) → of_fields (all_fields l) ≡ map as_is l
fields_back [] = refl
fields_back (v ∷ l) = ground (arith, of_flag-flag v.encrypted, fields_back l)

vaults_back :
    (l : List VaultInfo) → some (of_fields (decode (encode (all_fields l)))) ≡ some (map as_is l)
vaults_back l =
    ap some (ap of_fields (decode-encode (all_fields l) ∙ map-plain (all_fields l)) ∙ fields_back l)

instance abbrev plain_vaults : VaultsJson
plain_vaults = record {
  marshal = λ l. encode (all_fields l);
  unmarshal = λ b. some (of_fields (decode b));
  kept = as_is;
  unmarshal-marshal = vaults_back;
  kept_plain = λ v p. refl;
}

abbrev no_vaults : Manager
no_vaults = record { base_dir = codes "/home"; vaults = GoMap.empty; active_vault = [] }

no_vaults-IsManager : IsManager no_vaults
unfolding assoc
no_vaults-IsManager = record {
  distinct = tt;
  own_id = λ k v e. absurd (cc);
  one_name = λ j k v w e f n. absurd (cc);
}

unused : is_some (first (named (codes "My Notes")) no_vaults.vaults.entries) ≡ false
unfolding first
unused = refl

Run-IsManager_example :
    IsManager
      (rename
        (create no_vaults empty_home (codes "My Notes") 9).0
        empty_home
        (codes "my-notes")
        (codes "Log")).0
Run-IsManager_example = Run-IsManager Folders no_vaults-IsManager (
    Run.then_steps (Run.then_steps Run.stays (Step.creates empty_home (codes "My Notes") 9))
      (Step.renames empty_home (codes "my-notes") (codes "Log")))

get_vault-create_example :
    let v = new_vault no_vaults (codes "My Notes") 9 in
    let (after, _, result) = create no_vaults empty_home (codes "My Notes") 9 in
    (result ≡ some v)
    × (get_vault after v.id ≡ some v)
    × (get_vault after (codes "My Notes") ≡ (
        if list_beq v.id (codes "My Notes")
        then some v
        else (elim (get no_vaults.vaults (codes "My Notes")) [ none ↦ some v | some w ↦ some w ])))
unfolding assoc save_vaults
get_vault-create_example =
    get_vault-create no_vaults empty_home (codes "My Notes") 9 no_vaults-IsManager refl unused

-- a name in Greek letters, in UTF-8
abbrev greek : Text
greek = 206 ∷ 177 ∷ 206 ∷ 178 ∷ []

greek_unused : is_some (first (named greek) no_vaults.vaults.entries) ≡ false
unfolding first
greek_unused = refl

absent : (name : Text) → has no_vaults.vaults name ≡ false
unfolding assoc
absent name = refl

delete_vault-create_example :
    let (after, left, result) = create no_vaults empty_home greek 9 in
    let (final, gone, ok) = delete_vault after left greek true in
    ((v : VaultInfo) × (result ≡ some v)
      × (v.data_dir ≡ codes "/home")
      × (get final.vaults v.id ≡ none))
    × (ok ≡ false)
    × ((file : Text) (bytes : List ℕ)
        → ¬ (memory_disks.read_file gone (codes "/home" ++ codes "/" ++ file) ≡ found bytes))
unfolding assoc save_vaults
delete_vault-create_example =
    delete_vault-create no_vaults empty_home greek 9 b'/' (codes "home") no_vaults-IsManager refl
      refl greek_unused (absent greek) (absent []) refl refl
