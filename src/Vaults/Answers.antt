-- ===== src/Vaults/Answers.antt =====
-- internal/vault/manager.go: what a new vault is found under, and what its deletion removes.
use mathlib.Core.Path.{subst}
use acorde.GoMap.{delete, has}
use acorde.GoMap.Laws.{get-put, get-delete}
use acorde.Base.{
  List, refl, ap, sym, ◌∙◌, Bool, ◌&&◌, ◌∷◌, ◌++◌, Option, if◌then◌else◌, true, [], ℕ, ◌≡◌, false,
  none, some, inl, inr, Option-cases, arith,
}
use acorde.Base.Equality.{list_beq, nat_eq, list_eq, list_beq_iff, beq_refl}
use acorde.Base.Text.{Text, codes}
use acorde.GoMap.{get, put, values}
use acorde.Vaults.Packages.{VaultInfo, VaultsJson, Disks, found}
use acorde.Vaults.{
  sanitize_id, get_vault, delete_vault, Manager, first, named, is_some, find_vault, config_path,
  new_vault, create, save_vaults,
}
use acorde.Vaults.Keeps.{create-IsManager, IsManager, first_found, first_none}

-- a vault is found by its name where no vault has that name as its id
find_vault_named :
    (m : Manager) (v : VaultInfo)
    → IsManager m
    → get m.vaults v.id ≡ some v
    → find_vault m v.name
      ≡ (elim (get m.vaults v.name) [ none ↦ some (v.id, v) | some w ↦ some (v.name, w) ])
unfolding find_vault
find_vault_named m v h stands = elim (Option-cases (get m.vaults v.name)) [
  | inr (w, e) ↦ ground (arith, e)
  | inl e ↦ elim (Option-cases (first (named v.name) m.vaults.entries)) [
    | inl f ↦ absurd (
        ground (arith, first_none (named v.name) m.vaults.entries v.id v f stands, beq_refl v.name))
    | inr ((k, u), f) ↦
        let (here, same) = first_found (named v.name) m.vaults.entries k u h.distinct f in
        let one = h.one_name k v.id u v here stands ((list_beq_iff u.name v.name).0 same) in
        ground (arith, e, f, one, here, stands)
  ]
]

-- the manager with a new vault
abbrev pub added : Manager → Text → ℕ → Manager
added m name now = let v = new_vault m name now in record m { vaults = put m.vaults v.id v }

module _ {Disk : Type 0} ⦃json : VaultsJson⦄ ⦃disks : Disks Disk⦄ where
  -- whether the directory of a new vault can be made and the list then be written
  abbrev pub can_create : Manager → Disk → Text → ℕ → Bool
  can_create m disk name now =
      let (made, ok) = disks.make_dir disk (new_vault m name now).data_dir in
      ok && (save_vaults (added m name now) made).1

  pub create_lem :
      (m : Manager) (disk : Disk) (name : Text) (now : ℕ)
      → can_create m disk name now ≡ true
      → is_some (first (named name) m.vaults.entries) ≡ false
      → let v = new_vault m name now in
        create m disk name now ≡ (
          added m name now,
          (save_vaults (added m name now) (disks.make_dir disk v.data_dir).0).0,
          some v,
        )
  unfolding create
  create_lem m disk name now can unused = ground (arith, unused, can)

  pub added-IsManager :
      (m : Manager) (disk : Disk) (name : Text) (now : ℕ)
      → IsManager m
      → can_create m disk name now ≡ true
      → is_some (first (named name) m.vaults.entries) ≡ false
      → let v = new_vault m name now in
        IsManager (added m name now) × (get (added m name now).vaults v.id ≡ some v)
  added-IsManager m disk name now h can unused =
      let v = new_vault m name now in
      (
        subst (λ (q : Manager × Disk × Option VaultInfo). IsManager q.0)
            (create_lem m disk name now can unused) (create-IsManager m disk name now h),
        get-put m.vaults v.id v.id v ∙ ground (arith, beq_refl v.id),
      )

  -- the vault that was found goes with its directory
  delete_vault_lem :
      (m : Manager) (disk : Disk) (name id : Text) (v : VaultInfo)
      → (disks.remove_all disk v.data_dir).1 ≡ true
      → find_vault m name ≡ some (id, v)
      → delete_vault m disk name true ≡ (
          let final : Manager = record m { vaults = delete m.vaults id } in
          let (saved, done) = save_vaults final (disks.remove_all disk v.data_dir).0 in
          (final, saved, done))
  unfolding delete_vault
  delete_vault_lem m disk name id v goes f = ground (arith, f, goes)

  -- the list cannot be written where the base directory is gone
  save_vaults-remove_all :
      (m : Manager) (disk : Disk) (c : ℕ) (base : Text)
      → m.base_dir ≡ c ∷ base
      → (disks.remove_all disk (c ∷ base)).1 ≡ true
      → save_vaults m (disks.remove_all disk (c ∷ base)).0
        ≡ ((disks.remove_all disk (c ∷ base)).0, false)
  unfolding save_vaults
  save_vaults-remove_all m disk c base b goes =
      let gone = (disks.remove_all disk (c ∷ base)).0 in
      let bytes = json.marshal (values m.vaults) in
      ap (λ dir. disks.write_file gone (config_path dir) bytes) b
      ∙ disks.write-remove_all disk c base (codes "vaults.json") bytes goes

  -- Where a manager keeps its invariant, no vault has the name, the directory of the new vault can be
  -- made and the list then be written, Create gives the new vault, which is then found by its id; by
  -- its name it is found too, unless another vault has that name as its id, which is then found in
  -- its place.
  pub get_vault-create :
      (m : Manager) (disk : Disk) (name : Text) (now : ℕ)
      → IsManager m
      → can_create m disk name now ≡ true
      → is_some (first (named name) m.vaults.entries) ≡ false
      → let v = new_vault m name now in
        let (after, _, result) = create m disk name now in
        (result ≡ some v)
        × (get_vault after v.id ≡ some v)
        × (get_vault after name ≡ (
            if list_beq v.id name
            then some v
            else elim (get m.vaults name) [ none ↦ some v | some w ↦ some w ]))
  unfolding find_vault
  get_vault-create m disk name now h can unused =
      let v = new_vault m name now in
      let made = create_lem m disk name now can unused in
      let (keeps, stands) = added-IsManager m disk name now h can unused in
      ground (
        arith,
        made,
        stands,
        find_vault_named (added m name now) v keeps stands,
        get-put m.vaults v.id name v,
        list_beq_iff v.id name,
      )

  -- A manager that keeps its invariant, with a base directory of some name, creates a vault whose name
  -- leaves nothing in the id that is made from it, where no vault has the name, or has it as its id,
  -- or has no id, and the disk lets the vault be created. The vault's directory is the base directory
  -- of all vaults. When the vault is then deleted with its data and the removal of the directory goes
  -- well, no file is left under the base directory; the list of the other vaults cannot be written,
  -- so that Delete gives an error, and yet the vault is out of the manager.
  pub delete_vault-create :
      (m : Manager) (disk : Disk) (name : Text) (now c : ℕ) (base : Text)
      → IsManager m
      → m.base_dir ≡ c ∷ base
      → can_create m disk name now ≡ true
      → is_some (first (named name) m.vaults.entries) ≡ false
      → has m.vaults name ≡ false
      → has m.vaults [] ≡ false
      → sanitize_id name ≡ []
      → (disks.remove_all (create m disk name now).1 (c ∷ base)).1 ≡ true
      → let (after, left, result) = create m disk name now in
        let (final, gone, ok) = delete_vault after left name true in
        ((v : VaultInfo) × (result ≡ some v)
          × (v.data_dir ≡ m.base_dir)
          × (get final.vaults v.id ≡ none))
        × (ok ≡ false)
        × ((file : Text) (bytes : List ℕ)
            → ¬ (disks.read_file gone (c ∷ base ++ codes "/" ++ file) ≡ found bytes))
  delete_vault-create m disk name now c base h b can unused no_name no_empty empty goes =
      let v = new_vault m name now in
      let next = added m name now in
      let (keeps, stands) = added-IsManager m disk name now h can unused in
      let left = (save_vaults next (disks.make_dir disk v.data_dir).0).0 in
      let run = create_lem m disk name now can unused in
      let dir : v.data_dir ≡ m.base_dir = ground (arith, empty, no_empty) in
      let removes : (disks.remove_all left (c ∷ base)).1 ≡ true =
        ap (λ (q : Manager × Disk × Option VaultInfo). (disks.remove_all q.1 (c ∷ base)).1)
          (sym run)
        ∙ goes in
      let removed : disks.remove_all left v.data_dir ≡ disks.remove_all left (c ∷ base) =
        ap (disks.remove_all left) (dir ∙ b) in
      let found : find_vault next name ≡ some (v.id, v) =
        find_vault_named next v keeps stands
        ∙ ground (arith, get-put m.vaults v.id name v, list_beq_iff v.id name, no_name) in
      let final : Manager = record next { vaults = delete next.vaults v.id } in
      let deleted : delete_vault next left name true
          ≡ (final, (disks.remove_all left (c ∷ base)).0, false) =
        delete_vault_lem next left name v.id v (ap (λ q. q.1) removed ∙ removes) found
        ∙ ap
            (λ (q : Disk × Bool). let (saved, done) = save_vaults final q.0 in (final, saved, done))
            removed
        ∙ ap (λ (q : Disk × Bool). (final, q.0, q.1))
            (save_vaults-remove_all final left c base b removes) in
      rw run (
        rw deleted (
          (v, refl, dir, get-delete next.vaults v.id v.id ∙ ground (arith, beq_refl v.id)),
          refl,
          λ file bytes. disks.read-remove_all left c base file bytes removes,
        ))
