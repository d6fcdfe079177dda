-- ===== src/Base/Ordered.antt =====
-- Three-way comparison. A Go function that returns 1, -1 or 0 is one into `Ordering`: `gt`, `lt`,
-- `eq`. A weak order may call two different values equal.
use mathlib.Core.Path.{◌≡◌, refl}
use mathlib.Core.Logic.{◌↔◌}
use mathlib.Core.Bool.{Bool, true, false}
use mathlib.Core.List.{List, [], ◌∷◌}
use native.Mathlib.Omega.{arith}
use Prim.Native.Nat.{compare}
pub use Prim.Native.Nat.{Ordering}
use Prim.Native.Nat.{lt, eq, gt}

abbrev swap : Ordering → Ordering
swap lt = gt
swap eq = eq
swap gt = lt

abbrev pub then : Ordering → Ordering → Ordering
then lt o = lt
then eq o = o
then gt o = gt

abbrev pub is_gt : Ordering → Bool
is_gt gt = true
is_gt _ = false

pub record IsWeakOrder {ℓ} {A : Type ℓ} (cmp : A → A → Ordering) : Type ℓ where
  pub flip : (a b : A) → cmp b a ≡ swap (cmp a b)
  pub lt_trans : (a b c : A) → cmp a b ≡ lt → cmp b c ≡ lt → cmp a c ≡ lt
  pub eq_left : (a b c : A) → cmp a b ≡ eq → cmp a c ≡ cmp b c

pub nat_order : IsWeakOrder compare
nat_order = record {
  flip = λ a b. ground arith;
  lt_trans = λ a b c p q. ground arith;
  eq_left = λ a b c p. ground arith;
}

-- first by `c`, and by `d` among those that `c` calls equal
abbrev pub lex {ℓ} : {A : Type ℓ} → (A → A → Ordering) → (A → A → Ordering) → A → A → Ordering
lex c d a b = then (c a b) (d a b)

abbrev pub on {ℓ κ} : {A : Type ℓ} {B : Type κ} → (B → B → Ordering) → (A → B) → A → A → Ordering
on c f a b = c (f a) (f b)

module _ {ℓ} {A : Type ℓ} where
  pub lex-IsWeakOrder :
      {c d : A → A → Ordering} → IsWeakOrder c → IsWeakOrder d → IsWeakOrder (lex c d)
  lex-IsWeakOrder {c} {d} hc hd = record {
    flip = λ x y. ground (arith, hc.flip x y, hd.flip x y);
    lt_trans = λ x y z p q. ground (
      arith,
      hc.lt_trans x y z,
      hc.eq_left x y z,
      hc.eq_left z y x,
      hc.flip x y,
      hc.flip y z,
      hc.flip x z,
      hd.lt_trans x y z,
    );
    eq_left = λ x y z p. ground (arith, hc.eq_left x y z, hd.eq_left x y z);
  }

  pub on-IsWeakOrder {κ} :
      {B : Type κ} {c : B → B → Ordering} (f : A → B) → IsWeakOrder c → IsWeakOrder (on c f)
  on-IsWeakOrder f h = record {
    flip = λ x y. h.flip (f x) (f y);
    lt_trans = λ x y z. h.lt_trans (f x) (f y) (f z);
    eq_left = λ x y z. h.eq_left (f x) (f y) (f z);
  }

module _ {ℓ} {A : Type ℓ} (cmp : A → A → Ordering) where
  -- element by element; a proper prefix is less, as in Go's comparison of strings
  abbrev pub compare_lists : List A → List A → Ordering
  compare_lists [] [] = eq
  compare_lists [] (y ∷ ys) = lt
  compare_lists (x ∷ xs) [] = gt
  compare_lists (x ∷ xs) (y ∷ ys) = then (cmp x y) (compare_lists xs ys)

  module _ (h : IsWeakOrder cmp) where
    lists_flip : (xs ys : List A) → compare_lists ys xs ≡ swap (compare_lists xs ys)
    lists_flip [] [] = refl
    lists_flip [] (y ∷ ys) = refl
    lists_flip (x ∷ xs) [] = refl
    lists_flip (x ∷ xs) (y ∷ ys) = ground (arith, h.flip x y, lists_flip xs ys)

    lists_eq_left :
        (xs ys zs : List A) → compare_lists xs ys ≡ eq → compare_lists xs zs ≡ compare_lists ys zs
    lists_eq_left [] [] zs p = refl
    lists_eq_left [] (y ∷ ys) zs p = ground arith
    lists_eq_left (x ∷ xs) [] zs p = ground arith
    lists_eq_left (x ∷ xs) (y ∷ ys) [] p = refl
    lists_eq_left (x ∷ xs) (y ∷ ys) (z ∷ zs) p =
        ground (arith, h.eq_left x y z, lists_eq_left xs ys zs)

    lists_lt_trans :
        (xs ys zs : List A)
        → compare_lists xs ys ≡ lt
        → compare_lists ys zs ≡ lt
        → compare_lists xs zs ≡ lt
    lists_lt_trans [] [] zs p q = ground arith
    lists_lt_trans [] (y ∷ ys) [] p q = ground arith
    lists_lt_trans [] (y ∷ ys) (z ∷ zs) p q = refl
    lists_lt_trans (x ∷ xs) [] zs p q = ground arith
    lists_lt_trans (x ∷ xs) (y ∷ ys) [] p q = ground arith
    lists_lt_trans (x ∷ xs) (y ∷ ys) (z ∷ zs) p q = ground (
      arith,
      h.lt_trans x y z,
      h.eq_left x y z,
      h.eq_left z y x,
      h.flip x y,
      h.flip y z,
      h.flip x z,
      lists_lt_trans xs ys zs,
    )

    pub compare_lists-IsWeakOrder : IsWeakOrder compare_lists
    compare_lists-IsWeakOrder = record {
      flip = lists_flip;
      lt_trans = lists_lt_trans;
      eq_left = lists_eq_left;
    }

  -- a comparison that separates different elements separates different lists
  pub compare_lists-eq_iff :
      ((x y : A) → (cmp x y ≡ eq) ↔ (x ≡ y))
      → (xs ys : List A) → (compare_lists xs ys ≡ eq) ↔ (xs ≡ ys)
  compare_lists-eq_iff h [] [] = (λ _. refl, λ _. refl)
  compare_lists-eq_iff h [] (y ∷ ys) = ground arith
  compare_lists-eq_iff h (x ∷ xs) [] = ground arith
  compare_lists-eq_iff h (x ∷ xs) (y ∷ ys) = ground (arith, h x y, compare_lists-eq_iff h xs ys)
