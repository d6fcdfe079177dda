-- ===== src/Base/Members.antt =====
-- Membership in a list, as a test.
use mathlib.Core.Bool.{Bool, false, ◌||◌}
use mathlib.Core.List.{List, [], ◌∷◌}
use acorde.Base.Equality.{Eq}

abbrev pub mem {ℓ} : {A : Type ℓ} ⦃e : Eq A⦄ → A → List A → Bool
mem a [] = false
mem ⦃e⦄ a (x ∷ xs) = e.beq x a || mem a xs
