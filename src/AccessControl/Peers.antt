-- ===== src/AccessControl/Peers.antt =====
-- The loops of internal/acl/store.go over the names of peers, and what its tests say of a list.
use acorde.Base.{
  ◌≡◌, refl, ap, ◌||◌, ◌&&◌, not, inl, inr, Bool-cases, List, [], ◌∷◌, ◌++◌, map, arith,
}
use acorde.Base.Equality.{nat_eq, list_eq, list_beq, list_beq_iff}
use acorde.Base.Text.{Text}
use acorde.Core.Entry.{Acl}
use acorde.AccessControl.{has_peer, without_peer, is_owner, can_read, can_write}

pub has_peer-++ :
    (l : List Text) (p q : Text) → has_peer (l ++ (p ∷ [])) q ≡ (has_peer l q || list_beq p q)
has_peer-++ [] p q = ground arith
has_peer-++ (x ∷ l) p q = ground (arith, has_peer-++ l p q)

pub has_peer-without_peer :
    (l : List Text) (p q : Text)
    → has_peer (without_peer l p) q ≡ (not (list_beq p q) && has_peer l q)
has_peer-without_peer [] p q = ground arith
has_peer-without_peer (x ∷ l) p q = elim (Bool-cases (list_beq x p)) [
  | inl e ↦ ground (
    arith,
    e,
    has_peer-without_peer l p q,
    list_beq_iff x p,
    ap (λ y. list_beq y q) ((list_beq_iff x p).0 e),
  )
  | inr e ↦ elim (Bool-cases (list_beq x q)) [
    | inl f ↦ ground (
      arith,
      e,
      f,
      has_peer-without_peer l p q,
      list_beq_iff p q,
      ap (λ y. list_beq y p) ((list_beq_iff x q).0 f),
      list_beq_iff q p,
    )
    | inr f ↦ ground (arith, e, f, has_peer-without_peer l p q)
  ]
]

-- names that a coding keeps are kept in the longer list and in the shorter one
module _ (f : Text → Text) where
  pub map-++ :
      (l : List Text) (p : Text) → map f l ≡ l → f p ≡ p → map f (l ++ (p ∷ [])) ≡ l ++ (p ∷ [])
  map-++ [] p h e = ground (arith, e)
  map-++ (x ∷ l) p h e = ground (arith, h, map-++ l p (ground (arith, h)) e)

  pub map-without_peer :
      (l : List Text) (p : Text) → map f l ≡ l → map f (without_peer l p) ≡ without_peer l p
  map-without_peer [] p h = refl
  map-without_peer (x ∷ l) p h = elim (Bool-cases (list_beq x p)) [
    | inl e ↦ ground (arith, e, map-without_peer l p (ground (arith, h)))
    | inr e ↦ ground (arith, e, h, map-without_peer l p (ground (arith, h)))
  ]

pub can_read_lem :
    (acl : Acl) (p : Text)
    → can_read acl p
      ≡ (acl.public || is_owner acl p || has_peer acl.writers p || has_peer acl.readers p)
unfolding can_read
can_read_lem acl p = ground arith

pub can_write_lem :
    (acl : Acl) (p : Text) → can_write acl p ≡ (is_owner acl p || has_peer acl.writers p)
unfolding can_write
can_write_lem acl p = ground arith
