-- ===== src/Base/Selections.antt =====
-- WHERE, ORDER BY … DESC and LIMIT of an SQL query, over rows of any type. Rows stand in the order of
-- their insertion, and rows with equal keys keep it.
use Prim.Native.Nat.{ℕ, zero, suc, ◌≤◌}
use mathlib.Core.Path.{◌≡◌, refl, ap, ◌∙◌}
use mathlib.Core.Logic.{inl, inr}
use mathlib.Core.Bool.{Bool, true, false, ◌&&◌, ◌||◌}
use mathlib.Core.List.{List, [], ◌∷◌, ◌++◌, map}
use native.Mathlib.Omega.{arith}
use acorde.Base.Tests.{ltb, leb, ◌==◌, if◌then◌else◌, Bool-cases}
use acorde.Base.Slices.{take}

unfoldable pub filter : {A : Type 0} → (A → Bool) → List A → List A
filter test [] = []
filter test (x ∷ l) = let rest = filter test l in if test x then x ∷ rest else rest

pub filter-++ :
    {A : Type 0} (test : A → Bool) (l m : List A)
    → filter test (l ++ m) ≡ filter test l ++ filter test m
unfolding filter
filter-++ test [] m = refl
filter-++ test (x ∷ l) m = ground (arith, filter-++ test l m)

pub filter-filter :
    {A : Type 0} (p q r : A → Bool) (l : List A)
    → ((x : A) → (p x && q x) ≡ r x)
    → filter p (filter q l) ≡ filter r l
unfolding filter
filter-filter p q r [] h = refl
filter-filter p q r (x ∷ l) h = ground (arith, filter-filter p q r l h, h x)

filter_all : {A : Type 0} (p : A → Bool) (l : List A) → ((x : A) → p x ≡ true) → filter p l ≡ l
unfolding filter
filter_all p [] h = refl
filter_all p (x ∷ l) h = ground (arith, filter_all p l h, h x)

module _ {A : Type 0} (key : A → ℕ) where
  unfoldable pub insert : A → List A → List A
  insert x [] = x ∷ []
  insert x (y ∷ l) = if leb (key y) (key x) then x ∷ y ∷ l else y ∷ insert x l

  unfoldable pub order : List A → List A
  unfolding insert
  order [] = []
  order (x ∷ l) = insert x (order l)

  -- behind the rows with its key
  unfoldable pub insert_last : A → List A → List A
  insert_last x [] = x ∷ []
  insert_last x (y ∷ l) = if ltb (key y) (key x) then x ∷ y ∷ l else y ∷ insert_last x l

  insert-insert_last :
      (x y : A) (l : List A) → insert y (insert_last x l) ≡ insert_last x (insert y l)
  unfolding insert insert_last
  insert-insert_last x y [] = ground arith
  insert-insert_last x y (z ∷ l) = ground (arith, insert-insert_last x y l)

  pub order-++ : (l : List A) (x : A) → order (l ++ (x ∷ [])) ≡ insert_last x (order l)
  unfolding order insert_last
  order-++ [] x = refl
  order-++ (y ∷ l) x = ap (insert y) (order-++ l x) ∙ insert-insert_last x y (order l)

  -- no key above a bound
  below : ℕ → List A → Bool
  below n [] = true
  below n (x ∷ l) = leb (key x) n && below n l

  descends : List A → Bool
  descends [] = true
  descends (x ∷ l) = below (key x) l && descends l

  below_trans : (m n : ℕ) (l : List A) → m ≤ n → below m l ≡ true → below n l ≡ true
  unfolding below
  below_trans m n [] h b = refl
  below_trans m n (x ∷ l) h b = ground (arith, below_trans m n l h)

  below-insert : (n : ℕ) (x : A) (l : List A) → below n (insert x l) ≡ (leb (key x) n && below n l)
  unfolding below insert
  below-insert n x [] = refl
  below-insert n x (y ∷ l) = ground (arith, below-insert n x l)

  below-filter :
      (n : ℕ) (p : A → Bool) (l : List A) → below n l ≡ true → below n (filter p l) ≡ true
  unfolding below filter
  below-filter n p [] b = refl
  below-filter n p (x ∷ l) b = ground (arith, below-filter n p l)

  insert_first : (x : A) (l : List A) → below (key x) l ≡ true → insert x l ≡ x ∷ l
  unfolding below insert
  insert_first x [] b = refl
  insert_first x (y ∷ l) b = ground arith

  descends-insert : (x : A) (l : List A) → descends l ≡ true → descends (insert x l) ≡ true
  unfolding descends insert below
  descends-insert x [] d = refl
  descends-insert x (y ∷ l) d =
      ground (arith, descends-insert x l, below-insert (key y) x l, below_trans (key y) (key x) l)

  descends-order : (l : List A) → descends (order l) ≡ true
  unfolding descends order
  descends-order [] = refl
  descends-order (x ∷ l) = descends-insert x (order l) (descends-order l)

  filter-insert :
      (p : A → Bool) (x : A) (l : List A)
      → descends l ≡ true
      → filter p (insert x l) ≡ (if p x then insert x (filter p l) else filter p l)
  unfolding descends insert filter below
  filter-insert p x [] d = refl
  filter-insert p x (y ∷ l) d = elim (Bool-cases (leb (key y) (key x))) [
    | inl e ↦
        let all : below (key x) (y ∷ l) ≡ true =
          ground (arith, d, e, below_trans (key y) (key x) l) in
        ground (arith, e, insert_first x (filter p (y ∷ l)) (below-filter (key x) p (y ∷ l) all))
    | inr n ↦ ground (arith, n, d, filter-insert p x l)
  ]

  -- WHERE before ORDER BY or after it
  pub filter-order : (p : A → Bool) (l : List A) → filter p (order l) ≡ order (filter p l)
  unfolding order filter
  filter-order p [] = refl
  filter-order p (x ∷ l) =
      filter-insert p x (order l) (descends-order l) ∙ ground (arith, filter-order p l)

module _ {A : Type 0} (id : A → ℕ) where
  unfoldable pub has_id : ℕ → List A → Bool
  has_id n [] = false
  has_id n (x ∷ l) = id x == n || has_id n l

  unfoldable pub distinct : List A → Bool
  unfolding has_id
  distinct [] = true
  distinct (x ∷ l) = if has_id (id x) l then false else distinct l

  pub has_id-insert :
      (key : A → ℕ) (n : ℕ) (x : A) (l : List A)
      → has_id n (insert key x l) ≡ (id x == n || has_id n l)
  unfolding has_id insert
  has_id-insert key n x [] = refl
  has_id-insert key n x (y ∷ l) = ground (arith, has_id-insert key n x l)

  pub distinct-insert :
      (key : A → ℕ) (x : A) (l : List A)
      → has_id (id x) l ≡ false
      → distinct l ≡ true
      → distinct (insert key x l) ≡ true
  unfolding distinct insert has_id
  distinct-insert key x [] n d = refl
  distinct-insert key x (y ∷ l) n d =
      ground (arith, n, d, distinct-insert key x l, has_id-insert key (id y) x l)

  pub has_id-order : (key : A → ℕ) (n : ℕ) (l : List A) → has_id n (order key l) ≡ has_id n l
  unfolding order has_id
  has_id-order key n [] = refl
  has_id-order key n (x ∷ l) =
      has_id-insert key n x (order key l) ∙ ground (arith, has_id-order key n l)

  pub distinct-order :
      (key : A → ℕ) (l : List A) → distinct l ≡ true → distinct (order key l) ≡ true
  unfolding order distinct
  distinct-order key [] d = refl
  distinct-order key (x ∷ l) d =
      distinct-insert key x (order key l) (has_id-order key (id x) l ∙ ground (arith, d))
        (distinct-order key l (ground (arith, d)))

  pub has_id-filter :
      (p : A → Bool) (n : ℕ) (l : List A) → has_id n l ≡ false → has_id n (filter p l) ≡ false
  unfolding filter has_id
  has_id-filter p n [] h = refl
  has_id-filter p n (x ∷ l) h = ground (arith, has_id-filter p n l)

  pub distinct-filter :
      (p : A → Bool) (l : List A) → distinct l ≡ true → distinct (filter p l) ≡ true
  unfolding filter distinct
  distinct-filter p [] d = refl
  distinct-filter p (x ∷ l) d = ground (arith, d, distinct-filter p l, has_id-filter p (id x) l)

  pub has_id-++ : (n : ℕ) (l m : List A) → has_id n (l ++ m) ≡ (has_id n l || has_id n m)
  unfolding has_id
  has_id-++ n [] m = refl
  has_id-++ n (x ∷ l) m = ground (arith, has_id-++ n l m)

  pub distinct-++ :
      (l : List A) (x : A)
      → distinct l ≡ true
      → has_id (id x) l ≡ false
      → distinct (l ++ (x ∷ [])) ≡ true
  unfolding distinct has_id
  distinct-++ [] x d n = refl
  distinct-++ (y ∷ l) x d n = ground (arith, d, n, distinct-++ l x, has_id-++ (id y) l (x ∷ []))

  -- a test that no element of the list has the id for
  filter_skip :
      (q : A → Bool) (n : ℕ) (l : List A)
      → has_id n l ≡ false
      → filter (λ y. id y == n || q y) l ≡ filter q l
  unfolding filter has_id
  filter_skip q n [] h = refl
  filter_skip q n (x ∷ l) h = ground (arith, h, filter_skip q n l)

  none_kept : (l : List A) → filter (λ x. has_id (id x) []) l ≡ []
  unfolding filter has_id
  none_kept [] = refl
  none_kept (x ∷ l) = none_kept l

  -- WHERE id IN (… LIMIT k)
  pub filter-take :
      (k : ℕ) (l : List A) → distinct l ≡ true → filter (λ x. has_id (id x) (take k l)) l ≡ take k l
  unfolding filter has_id distinct
  filter-take zero l d = none_kept l
  filter-take (suc k) [] d = refl
  filter-take (suc k) (x ∷ l) d =
      ground (arith, d, filter-take k l, filter_skip (λ y. has_id (id y) (take k l)) (id x) l)

pub map-filter :
    {A B : Type 0} (f : A → B) (p : A → Bool) (q : B → Bool) (l : List A)
    → ((x : A) → q (f x) ≡ p x)
    → map f (filter p l) ≡ filter q (map f l)
unfolding filter
map-filter f p q [] h = refl
map-filter f p q (x ∷ l) h = ground (arith, h x, map-filter f p q l h)

pub map-insert_last :
    {A B : Type 0} (f : A → B) (key : A → ℕ) (other : B → ℕ)
    → ((x : A) → other (f x) ≡ key x)
    → (x : A) (l : List A) → map f (insert_last key x l) ≡ insert_last other (f x) (map f l)
unfolding insert_last
map-insert_last f key other h x [] = refl
map-insert_last f key other h x (y ∷ l) =
    ground (arith, h x, h y, map-insert_last f key other h x l)
