-- ===== src/Vaults.antt =====
-- internal/vault/manager.go: the vaults of a user, their directories and the file that lists them.
-- A vault is a value here: Rename, which changes the one that the map points to, puts it back.
pub mod Packages
pub mod Keeps
pub mod Answers
pub mod Restart
pub mod Tests
use acorde.Base.{
  ℕ, ◌+◌, ◌%◌, ◌≡◌, Bool, true, false, not, ◌&&◌, ◌||◌, Option, none, some, List, [], ◌∷◌, ◌++◌,
  ◌==◌, leb, if◌then◌else◌,
}
use acorde.Base.Equality.{nat_eq, list_eq, list_beq}
use acorde.Base.Text.{Text, codes, decimal}
use acorde.GoMap
use acorde.GoMap.{GoMap, get, put, delete, has, values}
use acorde.Vaults.Packages.{VaultInfo, VaultsJson, Disks, Read, missing, unreadable, found}

pub record Manager : Type 0 where
  pub base_dir : Text
  pub vaults : GoMap Text VaultInfo
  pub active_vault : Text

-- filepath.Join of a clean path and a name without a slash
abbrev join_path : Text → Text → Text
join_path base [] = base
join_path base (c ∷ name) = base ++ codes "/" ++ c ∷ name

abbrev pub config_path : Text → Text
config_path base = join_path base (codes "vaults.json")

abbrev between : ℕ → ℕ → ℕ → Bool
between low high c = leb low c && leb c high

abbrev pub sanitize_id : Text → Text
sanitize_id [] = []
sanitize_id (c ∷ s) =
    if between b'a' b'z' c || between b'0' b'9' c || c == b'-'
    then c ∷ sanitize_id s
    else if between b'A' b'Z' c
    then (c + 32) ∷ sanitize_id s
    else if c == b' ' || c == b'_'
    then b'-' ∷ sanitize_id s
    else sanitize_id s

-- of the time in seconds
abbrev generate_short_id : ℕ → Text
generate_short_id now = decimal (now % 10000)

-- the first vault of a `range` loop that passes a test, with its key
unfoldable pub first : (VaultInfo → Bool) → List (Text × VaultInfo) → Option (Text × VaultInfo)
first test [] = none
first test ((k, v) ∷ l) = let later = first test l in if test v then some (k, v) else later

abbrev pub named : Text → VaultInfo → Bool
named name v = list_beq v.name name

abbrev pub is_some {ℓ} : {A : Type ℓ} → Option A → Bool
is_some none = false
is_some (some _) = true

-- the search of Get and Delete: by id, and then by name
unfoldable pub find_vault : Manager → Text → Option (Text × VaultInfo)
unfolding first
find_vault m id_or_name = elim (get m.vaults id_or_name) [
  | some v ↦ some (id_or_name, v)
  | none ↦ first (named id_or_name) m.vaults.entries
]

abbrev pub get_vault : Manager → Text → Option VaultInfo
get_vault m id_or_name = elim (find_vault m id_or_name) [ none ↦ none | some (_, v) ↦ some v ]

abbrev list_vaults : Manager → List VaultInfo
list_vaults m = values m.vaults

-- none is an error
unfoldable pub set_active : Manager → Text → Option Manager
set_active m id_or_name = elim (get_vault m id_or_name) [
  | none ↦ none
  | some v ↦ some (record m { active_vault = v.id })
]

-- the outer option is the error, the inner one the nil pointer
unfoldable get_active : Manager → Option (Option VaultInfo)
get_active m = elim m.active_vault [ [] ↦ none | c ∷ s ↦ some (get m.vaults (c ∷ s)) ]

unfoldable pub load_vaults : GoMap Text VaultInfo → List VaultInfo → GoMap Text VaultInfo
load_vaults m [] = m
load_vaults m (v ∷ rest) = load_vaults (put m v.id v) rest

-- the id of a new vault
abbrev new_id : Manager → Text → ℕ → Text
new_id m name now =
    let id = sanitize_id name in
    if has m.vaults id then id ++ codes "-" ++ generate_short_id now else id

abbrev pub new_vault : Manager → Text → ℕ → VaultInfo
new_vault m name now = record {
  id = new_id m name now;
  name = name;
  data_dir = join_path m.base_dir (new_id m name now);
  encrypted = false;
  entry_count = 0;
  created_at = now;
  last_opened = 0;
}

module _ {Disk : Type 0} ⦃json : VaultsJson⦄ ⦃disks : Disks Disk⦄ where
  unfoldable pub save_vaults : Manager → Disk → Disk × Bool
  save_vaults m disk =
      disks.write_file disk (config_path m.base_dir) (json.marshal (values m.vaults))

  -- NewManager with loadVaults in it; none for an error
  unfoldable pub new_manager : Disk → Text → Option Manager
  unfolding load_vaults
  new_manager disk base_dir =
      let (made, ok) = disks.make_dir disk base_dir in
      let fresh : Manager = record {
        base_dir = base_dir;
        vaults = GoMap.empty;
        active_vault = [];
      } in
      if not ok then none else elim (disks.read_file made (config_path base_dir)) [
        | missing ↦ some fresh
        | unreadable ↦ none
        | found bytes ↦ elim (json.unmarshal bytes) [
          | none ↦ none
          | some vaults ↦ some (record fresh { vaults = load_vaults GoMap.empty vaults })
        ]
      ]

  -- the manager and the disk after the call, and the new vault or none for an error
  unfoldable pub create : Manager → Disk → Text → ℕ → Manager × Disk × Option VaultInfo
  unfolding save_vaults first
  create m disk name now =
      if is_some (first (named name) m.vaults.entries)
      then (m, disk, none)
      else (let vault = new_vault m name now in
          let (made, ok) = disks.make_dir disk vault.data_dir in
          if not ok
          then (m, made, none)
          else (let next : Manager = record m { vaults = put m.vaults vault.id vault } in
              let (saved, done) = save_vaults next made in
              (next, saved, if done then some vault else none)))

  -- whether there was no error
  unfoldable pub delete_vault : Manager → Disk → Text → Bool → Manager × Disk × Bool
  unfolding save_vaults find_vault
  delete_vault m disk id_or_name remove_data = elim (find_vault m id_or_name) [
    | none ↦ (m, disk, false)
    | some (id, v) ↦
        let (removed, ok) =
          if remove_data then disks.remove_all disk v.data_dir else (disk, true) in
        if not ok
        then (m, removed, false)
        else (let next : Manager = record m { vaults = delete m.vaults id } in
            let (saved, done) = save_vaults next removed in (next, saved, done))
  ]

  unfoldable pub rename : Manager → Disk → Text → Text → Manager × Disk × Bool
  unfolding save_vaults first
  rename m disk id_or_name new_name =
      elim (first (λ v. list_beq v.id id_or_name || named id_or_name v) m.vaults.entries) [
        | none ↦ (m, disk, false)
        | some (k, v) ↦
            if is_some (first (λ w. named new_name w && not (list_beq w.id v.id)) m.vaults.entries)
            then (m, disk, false)
            else (let next : Manager = record m {
              vaults = put m.vaults k (record v { name = new_name });
            } in
                let (saved, done) = save_vaults next disk in (next, saved, done))
      ]
