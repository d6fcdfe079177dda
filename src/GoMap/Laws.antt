-- ===== src/GoMap/Laws.antt =====
-- Reading a map after a write, and the writes that keep its keys distinct.
use acorde.Base.{◌≡◌, refl, none, some, List, [], ◌∷◌, arith, if◌then◌else◌}
use acorde.Base.Equality.{Eq}
use acorde.GoMap.{GoMap, assoc, assign, erase, get, put, delete, Distinct, IsMap, empty}

module _ {ℓ κ} {K : Type ℓ} {V : Type κ} ⦃eq : Eq K⦄ where
  pub assoc-assign :
      (l : List (K × V)) (k j : K) (v : V)
      → assoc (assign l k v) j ≡ (if eq.beq k j then some v else assoc l j)
  unfolding assoc assign
  assoc-assign [] k j v = refl
  assoc-assign ((i, w) ∷ l) k j v =
      ground (arith, eq.beq_iff i k, eq.beq_iff i j, eq.beq_iff k j, assoc-assign l k j v)

  pub assoc-erase :
      (l : List (K × V)) (k j : K) → assoc (erase l k) j ≡ (if eq.beq k j then none else assoc l j)
  unfolding assoc erase
  assoc-erase [] k j = ground arith
  assoc-erase ((i, w) ∷ l) k j =
      ground (arith, eq.beq_iff i k, eq.beq_iff i j, eq.beq_iff k j, assoc-erase l k j)

  pub get-put :
      (m : GoMap K V) (k j : K) (v : V)
      → get (put m k v) j ≡ (if eq.beq k j then some v else get m j)
  get-put m k j v = assoc-assign m.entries k j v

  pub get-delete :
      (m : GoMap K V) (k j : K) → get (delete m k) j ≡ (if eq.beq k j then none else get m j)
  get-delete m k j = assoc-erase m.entries k j

  assign-Distinct : (l : List (K × V)) (k : K) (v : V) → Distinct l → Distinct (assign l k v)
  unfolding assign assoc
  assign-Distinct [] k v d = (refl, tt)
  assign-Distinct ((i, w) ∷ l) k v d =
      ground
        (arith, eq.beq_iff i k, eq.beq_iff k i, assoc-assign l k i v, assign-Distinct l k v d.1)

  erase-Distinct : (l : List (K × V)) (k : K) → Distinct l → Distinct (erase l k)
  unfolding erase
  erase-Distinct [] k d = tt
  erase-Distinct ((i, w) ∷ l) k d =
      ground (arith, assoc-erase l k i, eq.beq_iff k i, erase-Distinct l k d.1)

  pub put-IsMap : (m : GoMap K V) (k : K) (v : V) → IsMap m → IsMap (put m k v)
  put-IsMap m k v d = assign-Distinct m.entries k v d

  pub delete-IsMap : (m : GoMap K V) (k : K) → IsMap m → IsMap (delete m k)
  delete-IsMap m k d = erase-Distinct m.entries k d

  pub get-empty : (k : K) → get (empty {K = K} {V = V}) k ≡ none
  unfolding assoc
  get-empty k = refl
