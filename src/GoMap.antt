-- ===== src/GoMap.antt =====
-- Go's built-in `map`: an association list in which no key stands twice. A `range` loop over a map
-- visits its entries in an order that Go leaves open: here in the order of the list. Two maps are
-- the same, `SameMap`, when every key reads the same, whatever their orders.
pub mod Laws
pub mod Range
pub mod Join
pub mod Sets
pub mod Every
use acorde.Base.{
  ℕ, ◌≡◌, Bool, true, false, Option, none, some, List, [], ◌∷◌, map, length, if◌then◌else◌,
}
use acorde.Base.Equality.{Eq}

pub record GoMap {ℓ κ} (K : Type ℓ) (V : Type κ) : Type (ℓ ⊔ κ) where
  pub entries : List (K × V)

module _ {ℓ κ} {K : Type ℓ} {V : Type κ} where
  -- make(map[K]V)
  abbrev pub empty : GoMap K V
  empty = record { entries = [] }

  -- len(m)
  abbrev pub size : GoMap K V → ℕ
  size m = length m.entries

  -- the values, in the order of a `range` loop
  abbrev pub values : GoMap K V → List V
  values m = map (λ e. e.1) m.entries

  -- the keys, in the order of a `range` loop
  abbrev pub keys : GoMap K V → List K
  keys m = map (λ e. e.0) m.entries

module _ {ℓ κ} {K : Type ℓ} {V : Type κ} ⦃eq : Eq K⦄ where
  unfoldable pub assoc : List (K × V) → K → Option V
  assoc [] k = none
  assoc ((j, v) ∷ l) k = if eq.beq j k then some v else assoc l k

  unfoldable pub assign : List (K × V) → K → V → List (K × V)
  assign [] k v = (k, v) ∷ []
  assign ((j, w) ∷ l) k v = if eq.beq j k then (j, v) ∷ l else (j, w) ∷ assign l k v

  unfoldable pub erase : List (K × V) → K → List (K × V)
  erase [] k = []
  erase ((j, w) ∷ l) k = if eq.beq j k then erase l k else (j, w) ∷ erase l k

  -- v, ok := m[k]
  abbrev pub get : GoMap K V → K → Option V
  get m k = assoc m.entries k

  -- m[k] = v
  abbrev pub put : GoMap K V → K → V → GoMap K V
  put m k v = record { entries = assign m.entries k v }

  -- delete(m, k)
  abbrev pub delete : GoMap K V → K → GoMap K V
  delete m k = record { entries = erase m.entries k }

  -- _, ok := m[k]
  abbrev pub has : GoMap K V → K → Bool
  has m k = elim (get m k) [ none ↦ false | some _ ↦ true ]

  -- no key stands twice
  abbrev pub Distinct : List (K × V) → Type κ
  Distinct [] = Unit
  Distinct ((k, v) ∷ l) = (assoc l k ≡ none) × Distinct l

  abbrev pub IsMap : GoMap K V → Type κ
  IsMap m = Distinct m.entries

  -- the same content
  abbrev pub SameMap : GoMap K V → GoMap K V → Type (ℓ ⊔ κ)
  SameMap m n = (k : K) → get m k ≡ get n k

-- a Go set, `map[K]struct{}`
abbrev pub GoSet {ℓ} : Type ℓ → Type ℓ
GoSet K = GoMap K (Unit {0})
