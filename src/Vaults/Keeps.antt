-- ===== src/Vaults/Keeps.antt =====
-- internal/vault/manager.go: every vault stands under its own id, and no two have one name.
use acorde.Base.{
  ◌||◌, ◌&&◌, not, inl, inr, Option-cases, ℕ, ◌≡◌, Bool, true, false, none, some, List, [], ◌∷◌,
  arith,
}
use acorde.Base.Equality.{list_beq, nat_eq, list_eq, list_beq_iff}
use acorde.Base.Text.{Text}
use acorde.GoMap.{get, put, delete, assoc, IsMap, Distinct}
use acorde.GoMap.Laws.{get-put, get-delete, put-IsMap, delete-IsMap}
use acorde.Vaults.Packages.{VaultInfo}
use acorde.Vaults.{
  new_vault, find_vault, named, create, rename, set_active, delete_vault, Disks, VaultsJson,
  Manager, first,
}

-- the loop finds what stands in the map, and misses nothing
pub first_found :
    (test : VaultInfo → Bool) (l : List (Text × VaultInfo)) (k : Text) (v : VaultInfo)
    → Distinct l
    → first test l ≡ some (k, v)
    → (assoc l k ≡ some v) × (test v ≡ true)
unfolding first assoc
first_found test [] k v d e = ground (arith, e)
first_found test ((j, w) ∷ l) k v d e =
    ground (arith, e, first_found test l k v d.1, list_beq_iff j k, d.0)

pub first_none :
    (test : VaultInfo → Bool) (l : List (Text × VaultInfo)) (k : Text) (v : VaultInfo)
    → first test l ≡ none
    → assoc l k ≡ some v
    → test v ≡ false
unfolding first assoc
first_none test [] k v n e = ground (arith, e)
first_none test ((j, w) ∷ l) k v n e = ground (arith, n, e, first_none test l k v)

pub record IsManager (m : Manager) : Type 0 where
  pub distinct : IsMap m.vaults
  pub own_id : (k : Text) (v : VaultInfo) → get m.vaults k ≡ some v → v.id ≡ k
  pub one_name :
      (j k : Text) (v w : VaultInfo)
      → get m.vaults j ≡ some v
      → get m.vaults k ≡ some w
      → v.name ≡ w.name
      → j ≡ k

put-IsManager :
    (m : Manager) (v : VaultInfo)
    → IsManager m
    → ((k : Text) (w : VaultInfo) → get m.vaults k ≡ some w → w.name ≡ v.name → k ≡ v.id)
    → IsManager (record m { vaults = put m.vaults v.id v })
put-IsManager m v h free = record {
  distinct = put-IsMap m.vaults v.id v h.distinct;
  own_id = λ k w e. ground (arith, e, get-put m.vaults v.id k v, list_beq_iff v.id k, h.own_id k w);
  one_name = λ j k x y e f n. ground (
    arith,
    e,
    f,
    n,
    get-put m.vaults v.id j v,
    get-put m.vaults v.id k v,
    list_beq_iff v.id j,
    list_beq_iff v.id k,
    h.one_name j k x y,
    free j x,
    free k y,
  );
}

delete-IsManager :
    (m : Manager) (id : Text) → IsManager m → IsManager (record m { vaults = delete m.vaults id })
delete-IsManager m id h = record {
  distinct = delete-IsMap m.vaults id h.distinct;
  own_id = λ k w e. h.own_id k w (ground (arith, e, get-delete m.vaults id k));
  one_name = λ j k x y e f n.
      h.one_name j k x y (ground (arith, e, get-delete m.vaults id j))
        (ground (arith, f, get-delete m.vaults id k)) n;
}

same_vaults :
    (m : Manager) (active : Text) → IsManager m → IsManager (record m { active_vault = active })
same_vaults m active h = record { distinct = h.distinct; own_id = h.own_id; one_name = h.one_name }

module _ {Disk : Type 0} ⦃json : VaultsJson⦄ ⦃disks : Disks Disk⦄ where
  pub create-IsManager :
      (m : Manager) (disk : Disk) (name : Text) (now : ℕ)
      → IsManager m
      → IsManager (create m disk name now).0
  unfolding create
  create-IsManager m disk name now h = elim (Option-cases (first (named name) m.vaults.entries)) [
    | inr (found, e) ↦ ground (arith, e, h)
    | inl none_named ↦
        let kept = put-IsManager m (new_vault m name now) h λ k w e n. absurd (
          ground (
            arith,
            first_none (named name) m.vaults.entries k w none_named e,
            list_beq_iff w.name name,
            n,
          )) in
        ground (arith, none_named, h, kept)
  ]

  delete_vault-IsManager :
      (m : Manager) (disk : Disk) (id_or_name : Text) (remove_data : Bool)
      → IsManager m
      → IsManager (delete_vault m disk id_or_name remove_data).0
  unfolding delete_vault
  delete_vault-IsManager m disk id_or_name remove_data h =
      elim (Option-cases (find_vault m id_or_name)) [
        | inl e ↦ ground (arith, e, h)
        | inr ((id, v), e) ↦ ground (arith, e, h, delete-IsManager m id h)
      ]

  rename-IsManager :
      (m : Manager) (disk : Disk) (id_or_name new_name : Text)
      → IsManager m
      → IsManager (rename m disk id_or_name new_name).0
  unfolding rename
  rename-IsManager m disk id_or_name new_name h =
      let asked = λ (v : VaultInfo). list_beq v.id id_or_name || named id_or_name v in
      elim (Option-cases (first asked m.vaults.entries)) [
        | inl e ↦ ground (arith, e, h)
        | inr ((k, v), e) ↦
            let other = λ (w : VaultInfo). named new_name w && not (list_beq w.id v.id) in
            let (stands, _) = first_found asked m.vaults.entries k v h.distinct e in
            elim (Option-cases (first other m.vaults.entries)) [
              | inr (w, f) ↦ ground (arith, e, f, h)
              | inl f ↦
                  let own = h.own_id k v stands in
                  let renamed : VaultInfo = record v { name = new_name } in
                  let kept = put-IsManager m renamed h λ j w g n. ground (
                    arith,
                    first_none other m.vaults.entries j w f g,
                    list_beq_iff w.name new_name,
                    list_beq_iff w.id v.id,
                    n,
                    h.own_id j w g,
                  ) in
                  ground (arith, e, f, kept, own)
            ]
      ]

set_active-IsManager :
    (m n : Manager) (id_or_name : Text)
    → set_active m id_or_name ≡ some n
    → IsManager m
    → IsManager n
unfolding set_active
set_active-IsManager m n id_or_name e h = elim (Option-cases (find_vault m id_or_name)) [
  | inl f ↦ absurd (ground (arith, e, f))
  | inr ((k, v), f) ↦ ground (arith, e, f, same_vaults m v.id h)
]

-- A call of one of the manager's methods, on any disk: other programs may change the disk between
-- two calls.
module _ (Disk : Type 0) ⦃json : VaultsJson⦄ ⦃disks : Disks Disk⦄ where
  pub data Step : Manager → Manager → Type 0 where
    creates :
        {m : Manager} (disk : Disk) (name : Text) (now : ℕ) → Step m (create m disk name now).0
    deletes :
        {m : Manager} (disk : Disk) (id_or_name : Text) (remove_data : Bool)
        → Step m (delete_vault m disk id_or_name remove_data).0
    renames :
        {m : Manager} (disk : Disk) (id_or_name new_name : Text)
        → Step m (rename m disk id_or_name new_name).0
    activates : {m n : Manager} (id_or_name : Text) → set_active m id_or_name ≡ some n → Step m n

  pub data Run : Manager → Manager → Type 0 where
    stays : {m : Manager} → Run m m
    then_steps : {m n o : Manager} → Run m n → Step n o → Run m o

  Step-IsManager : {m n : Manager} → Step m n → IsManager m → IsManager n
  Step-IsManager (Step.creates {m} disk name now) h = create-IsManager m disk name now h
  Step-IsManager (Step.deletes {m} disk id_or_name remove_data) h =
      delete_vault-IsManager m disk id_or_name remove_data h
  Step-IsManager (Step.renames {m} disk id_or_name new_name) h =
      rename-IsManager m disk id_or_name new_name h
  Step-IsManager (Step.activates {m} {n} id_or_name e) h = set_active-IsManager m n id_or_name e h

  -- From a manager in which every vault stands under its own id and no two have one name, every run
  -- of its methods, whatever errors the disk gives, leads to such a manager.
  pub Run-IsManager : {m n : Manager} → IsManager m → Run m n → IsManager n
  Run-IsManager h Run.stays = h
  Run-IsManager h (Run.then_steps run step) = Step-IsManager step (Run-IsManager h run)
