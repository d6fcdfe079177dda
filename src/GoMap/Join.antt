-- ===== src/GoMap/Join.antt =====
-- The leftmost maximum under a weak order: what a last-writer-wins register keeps of the value it
-- has and a value that comes in.
use acorde.Base.{◌≡◌, refl, Option, none, some, ap, inl, inr, Bool-cases, arith, if◌then◌else◌}
use acorde.Base.Ordered.{Ordering, is_gt, IsWeakOrder}

module _ {ℓ} {A : Type ℓ} (cmp : A → A → Ordering) where
  -- the newcomer `b` replaces `a` only if it is greater
  abbrev pub keep : A → A → A
  keep a b = if is_gt (cmp b a) then b else a

  abbrev pub join : Option A → Option A → Option A
  join none o = o
  join (some a) none = some a
  join (some a) (some b) = some (keep a b)

  -- neither is preferred to the other
  abbrev pub Tied : Option A → Option A → Type 0
  Tied none none = Unit
  Tied (some a) (some b) = cmp a b ≡ Ordering.eq
  Tied _ _ = ⊥

  module _ (h : IsWeakOrder cmp) where
    pub join_idem : (x : Option A) → join x x ≡ x
    join_idem none = refl
    join_idem (some a) = ground (arith, h.flip a a)

    keep_assoc : (a b c : A) → keep (keep a b) c ≡ keep a (keep b c)
    keep_assoc a b c = elim (Bool-cases (is_gt (cmp b a))) [
      | inl x ↦ elim (Bool-cases (is_gt (cmp c b))) [
        | inl y ↦ rw (x, y) (ground (arith, h.flip a c, h.flip b c, h.flip a b, h.lt_trans a b c))
        | inr y ↦ rw (x, y, x)
      ]
      | inr x ↦ elim (Bool-cases (is_gt (cmp c b))) [
        | inl y ↦ rw (x, y)
        | inr y ↦
            rw (x, y)
              (ground (
                arith,
                h.flip a b,
                h.flip b c,
                h.flip a c,
                h.lt_trans c b a,
                h.eq_left a b c,
                h.eq_left c b a,
              ))
      ]
    ]

    pub join_assoc : (x y z : Option A) → join (join x y) z ≡ join x (join y z)
    join_assoc none y z = refl
    join_assoc (some a) none z = refl
    join_assoc (some a) (some b) none = refl
    join_assoc (some a) (some b) (some c) = ap some (keep_assoc a b c)

    pub join_comm : (x y : Option A) → Tied (join x y) (join y x)
    join_comm none none = tt
    join_comm none (some b) = ground (arith, h.flip b b)
    join_comm (some a) none = ground (arith, h.flip a a)
    join_comm (some a) (some b) = ground (arith, h.flip a b, h.flip a a, h.flip b b)
