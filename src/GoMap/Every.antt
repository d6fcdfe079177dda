-- ===== src/GoMap/Every.antt =====
-- What holds of every value of a map under its key, as an induction over the entries needs it.
use acorde.Base.{◌≡◌, refl, some, List, ◌∷◌, arith}
use acorde.Base.Equality.{Eq, beq_refl}
use acorde.GoMap.{assoc, Distinct}

module _ {ℓ κ ν} {K : Type ℓ} {V : Type κ} ⦃eq : Eq K⦄ (P : K → V → Type ν) where
  abbrev pub Every : List (K × V) → Type (ℓ ⊔ κ ⊔ ν)
  Every l = (k : K) (v : V) → assoc l k ≡ some v → P k v

  pub Every-head : (k : K) (v : V) (l : List (K × V)) → Every ((k, v) ∷ l) → P k v
  unfolding assoc
  Every-head k v l h = h k v (rw beq_refl refl)

  pub Every-tail :
      (k : K) (v : V) (l : List (K × V)) → Distinct ((k, v) ∷ l) → Every ((k, v) ∷ l) → Every l
  unfolding assoc
  Every-tail k v l d h j w g = h j w (ground (arith, g, d.0, eq.beq_iff k j))
