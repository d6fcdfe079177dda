-- ===== src/Base/Slices.antt =====
-- Go's slices of a slice.
use Prim.Native.Nat.{ℕ, zero, suc}
use mathlib.Core.Path.{◌≡◌, refl, ap}
use mathlib.Core.Bool.{Bool, true, false, ◌&&◌, ◌||◌}
use acorde.Base.Equality.{Eq, beq_refl}
use mathlib.Core.List.{List, [], ◌∷◌, ◌++◌, map}
use native.Mathlib.Omega.{arith}
use acorde.Base.Tests.{length, ltb}

-- b[:n] and b[n:]
abbrev pub take {ℓ} : {A : Type ℓ} → ℕ → List A → List A
take zero l = []
take (suc n) [] = []
take (suc n) (x ∷ l) = x ∷ take n l

abbrev pub drop {ℓ} : {A : Type ℓ} → ℕ → List A → List A
drop zero l = l
drop (suc n) [] = []
drop (suc n) (x ∷ l) = drop n l

pub take-++ {ℓ} : {A : Type ℓ} (l m : List A) → take (length l) (l ++ m) ≡ l
take-++ [] m = refl
take-++ (x ∷ l) m = ap (λ r. x ∷ r) (take-++ l m)

pub drop-++ {ℓ} : {A : Type ℓ} (l m : List A) → drop (length l) (l ++ m) ≡ m
drop-++ [] m = refl
drop-++ (x ∷ l) m = drop-++ l m

pub length-++ {ℓ} : {A : Type ℓ} (l m : List A) → ltb (length (l ++ m)) (length l) ≡ false
length-++ [] m = ground arith
length-++ (x ∷ l) m = ground (arith, length-++ l m)

-- strings.HasPrefix, strings.Contains and strings.Join
module _ {ℓ} {A : Type ℓ} ⦃e : Eq A⦄ where
  abbrev pub has_prefix : List A → List A → Bool
  has_prefix s [] = true
  has_prefix [] (p ∷ ps) = false
  has_prefix (c ∷ s) (p ∷ ps) = e.beq c p && has_prefix s ps

  abbrev pub contains : List A → List A → Bool
  contains [] sub = has_prefix [] sub
  contains (c ∷ s) sub = has_prefix (c ∷ s) sub || contains s sub

  pub has_prefix-++ : (p s : List A) → has_prefix (p ++ s) p ≡ true
  has_prefix-++ [] s = refl
  has_prefix-++ (c ∷ p) s = ground (arith, beq_refl c, has_prefix-++ p s)

abbrev pub join {ℓ} : {A : Type ℓ} → List A → List (List A) → List A
join sep [] = []
join sep (x ∷ []) = x
join sep (x ∷ y ∷ l) = x ++ sep ++ join sep (y ∷ l)

pub map-take : {A B : Type 0} (f : A → B) (n : ℕ) (l : List A) → map f (take n l) ≡ take n (map f l)
map-take f zero l = refl
map-take f (suc n) [] = refl
map-take f (suc n) (x ∷ l) = ap (λ r. f x ∷ r) (map-take f n l)
