-- ===== src/GoMap/Range.antt =====
-- `range` loops: a loop whose body treats each key by itself treats every key of the map once, so
-- its result does not depend on the order of the visits.
use acorde.Base.{◌≡◌, refl, Option, none, some, List, [], ◌∷◌, ◌∙◌, foldl, arith, if◌then◌else◌}
use acorde.Base.Equality.{Eq}
use acorde.GoMap.{GoMap, assoc, get, IsMap, Distinct}

-- what the loop leaves at a key: `f` of the value before and the value visited
abbrev pub visit {ℓ κ} :
    {V : Type ℓ} {W : Type κ} → (Option V → W → Option V) → Option V → Option W → Option V
visit f old none = old
visit f old (some w) = f old w

module _ {ℓ κ ν} {K : Type ℓ} {V : Type κ} {W : Type ν} ⦃eq : Eq K⦄
    (body : GoMap K V → K × W → GoMap K V) (f : K → Option V → W → Option V) where
  -- one turn of the loop touches its own key only
  abbrev pub Local : Type (ℓ ⊔ κ ⊔ ν)
  Local =
      (m : GoMap K V) (k j : K) (w : W)
      → get (body m (k, w)) j ≡ (if eq.beq k j then f k (get m k) w else get m j)

  pub get-foldl :
      Local
      → (l : List (K × W)) (m : GoMap K V) (j : K) → Distinct l
      → get (foldl body m l) j ≡ visit (f j) (get m j) (assoc l j)
  unfolding assoc
  get-foldl law [] m j d = refl
  get-foldl law ((k, w) ∷ l) m j d =
      get-foldl law l (body m (k, w)) j d.1 ∙ ground (arith, law m k j w, eq.beq_iff k j)

  pub foldl-IsMap :
      ((m : GoMap K V) (k : K) (w : W) → IsMap m → IsMap (body m (k, w)))
      → (l : List (K × W)) (m : GoMap K V) → IsMap m
      → IsMap (foldl body m l)
  foldl-IsMap keep [] m h = h
  foldl-IsMap keep ((k, w) ∷ l) m h = foldl-IsMap keep l (body m (k, w)) (keep m k w h)
