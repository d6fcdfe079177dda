-- ===== src/Vaults/Restart.antt =====
-- internal/vault/manager.go: what a new manager loads after a vault was created.
use acorde.Base.{
  ℕ, ◌≡◌, refl, ap, sym, ◌∙◌, Option, true, false, none, some, List, [], ◌∷◌, inl, inr, Bool-cases,
  if◌then◌else◌, arith, map,
}
use mathlib.Core.Path.{subst}
use acorde.Base.Equality.{nat_eq, list_eq, list_beq, list_beq_iff}
use acorde.Base.Text.{Text}
use acorde.GoMap
use acorde.GoMap.{GoMap, get, put, delete, has, values, assoc, IsMap, Distinct, SameMap}
use acorde.GoMap.Laws.{get-put}
use acorde.GoMap.Every.{Every, Every-head, Every-tail}
use acorde.Vaults.Packages.{VaultInfo, VaultsJson, Disks, IsPlain}
use acorde.Vaults.{
  Manager, first, named, is_some, config_path, load_vaults, new_vault, new_manager, create,
  save_vaults,
}
use acorde.Vaults.Keeps.{IsManager}
use acorde.Vaults.Answers.{added, can_create, create_lem, added-IsManager}

-- a vault under its own id, which JSON keeps
abbrev pub Written : Text → VaultInfo → Type 0
Written k v = (v.id ≡ k) × IsPlain v

module _ ⦃json : VaultsJson⦄ where
  get-load_vaults :
      (l : List (Text × VaultInfo)) (m : GoMap Text VaultInfo) (q : Text)
      → Distinct l
      → Every Written l
      → get (load_vaults m (map json.kept (values (record { entries = l })))) q
        ≡ (elim (assoc l q) [ none ↦ get m q | some v ↦ some v ])
  unfolding load_vaults assoc
  get-load_vaults [] m q d w = refl
  get-load_vaults ((k, v) ∷ l) m q d w =
      let (own, plain) = Every-head Written k v l w in
      let rest = map json.kept (values (record { entries = l })) in
      ap (λ (x : VaultInfo). get (load_vaults (put m x.id x) rest) q) (json.kept_plain v plain)
      ∙ ap (λ i. get (load_vaults (put m i v) rest) q) own
      ∙ get-load_vaults l (put m k v) q d.1 (Every-tail Written k v l d w)
      ∙ ground (arith, get-put m k q v, d.0, list_beq_iff k q)

module _ {Disk : Type 0} ⦃json : VaultsJson⦄ ⦃disks : Disks Disk⦄ where
  save_vaults-new_manager :
      (m : Manager) (disk : Disk)
      → IsManager m
      → ((k : Text) (v : VaultInfo) → get m.vaults k ≡ some v → IsPlain v)
      → (save_vaults m disk).1 ≡ true
      → (disks.make_dir (save_vaults m disk).0 m.base_dir).1 ≡ true
      → (loaded : Manager) × (new_manager (save_vaults m disk).0 m.base_dir ≡ some loaded)
        × (loaded.base_dir ≡ m.base_dir)
        × (loaded.active_vault ≡ [])
        × SameMap loaded.vaults m.vaults
  unfolding new_manager save_vaults assoc
  save_vaults-new_manager m disk h plain writes makes =
      let path = config_path m.base_dir in
      let bytes = json.marshal (values m.vaults) in
      let saved = (disks.write_file disk path bytes).0 in
      let back = disks.read-write disk path bytes writes in
      (
        record {
          base_dir = m.base_dir;
          vaults = load_vaults GoMap.empty (map json.kept (values m.vaults));
          active_vault = [];
        },
        ground (
          arith,
          makes,
          disks.read-make_dir saved m.base_dir path bytes makes back,
          json.unmarshal-marshal (values m.vaults),
        ),
        refl,
        refl,
        λ q.
            get-load_vaults m.vaults.entries GoMap.empty q h.distinct
              (λ k v e. (h.own_id k v e, plain k v e))
            ∙ ground arith,
      )

  -- Where a manager keeps its invariant, no vault has the name, the disk lets the vault be created and
  -- then makes the base directory, and JSON keeps the strings of the vaults and of the new one, a
  -- manager that starts over the same base directory after Create holds the same vaults under the
  -- same ids, the new one under its own, and none is active.
  pub new_manager-create :
      (m : Manager) (disk : Disk) (name : Text) (now : ℕ)
      → IsManager m
      → can_create m disk name now ≡ true
      → (disks.make_dir (create m disk name now).1 m.base_dir).1 ≡ true
      → is_some (first (named name) m.vaults.entries) ≡ false
      → ((k : Text) (v : VaultInfo) → get m.vaults k ≡ some v → IsPlain v)
      → IsPlain (new_vault m name now)
      → let v = new_vault m name now in
        let (after, left, result) = create m disk name now in
        (result ≡ some v)
        × ((loaded : Manager) × (new_manager left m.base_dir ≡ some loaded)
            × (loaded.active_vault ≡ [])
            × ((id : Text)
                → get loaded.vaults id ≡ (if list_beq v.id id then some v else get m.vaults id)))
  new_manager-create m disk name now h can makes unused plain new =
      let v = new_vault m name now in
      let next = added m name now in
      let (keeps, _) = added-IsManager m disk name now h can unused in
      let run = create_lem m disk name now can unused in
      let all : (k : Text) (w : VaultInfo) → get next.vaults k ≡ some w → IsPlain w = λ k w e.
        elim (Bool-cases (list_beq v.id k)) [
          | inl c ↦
              subst IsPlain {x = v} {y = w} (ground (arith, e, c, get-put m.vaults v.id k v)) new
          | inr c ↦ plain k w (ground (arith, e, c, get-put m.vaults v.id k v))
        ] in
      let (loaded, l, _, idle, same) =
        save_vaults-new_manager next (disks.make_dir disk v.data_dir).0 keeps all
          (ground (arith, can))
          (ap (λ (q : Manager × Disk × Option VaultInfo). (disks.make_dir q.1 m.base_dir).1)
              (sym run)
            ∙ makes) in
      rw run (refl, (loaded, l, idle, λ id. same id ∙ get-put m.vaults v.id id v))
