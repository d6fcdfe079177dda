-- ===== src/Crdt/Replica/TagSets.antt =====
-- The tag sets of a replica: the loops of internal/crdt/replica.go that add and replace tags keep
-- them well formed.
use mathlib.Core.Path.{subst}
use mathlib.Core.Option.{some-injective}
use acorde.Base.{
  ℕ, suc, ◌≡◌, refl, sym, ◌∙◌, Option, none, some, inl, inr, Bool-cases, Option-cases, List, [],
  ◌∷◌, ◌==◌,
}
use acorde.Base.Equality.{nat_eq, list_eq}
use acorde.Base.Text.{Text}
use acorde.Core.Uuid.{Uuid, UuidPackage}
use acorde.GoMap.{GoMap, GoSet, get, put, has, IsMap, keys}
use acorde.GoMap.Laws.{get-put, put-IsMap}
use acorde.Crdt.OrSet
use acorde.Crdt.OrSet.{OrSet, new_or_set, add_with_token}
use acorde.Crdt.OrSet.Merge.{
  IsOrSet, new_or_set-IsOrSet, add_with_token-IsOrSet, remove-IsOrSet, merge-IsOrSet, clone-IsOrSet,
}
use acorde.Crdt.Replica.{
  Replica, tag_set, add_tags, hydrate_tags, remove_missing, add_missing, replace_tags, set_of,
}
use acorde.Crdt.Replica.Acls.{merge}
use acorde.Crdt.Replica.Registers.{join_tags, tags-merge, tags-merge-IsMap}

pub record TagsFit (m : GoMap Uuid OrSet) : Type 0 where
  pub distinct : IsMap m
  pub observed : (id : Uuid) (s : OrSet) → get m id ≡ some s → IsOrSet s

pub put-TagsFit :
    (m : GoMap Uuid OrSet) (id : Uuid) (s : OrSet) → TagsFit m → IsOrSet s → TagsFit (put m id s)
put-TagsFit m id s h k = record {
  distinct = put-IsMap m id s h.distinct;
  observed = λ j x g. elim (Bool-cases (id == j)) [
    | inl e ↦ subst IsOrSet (some-injective _ _ (rw (get-put m id j s, e) at g)) k
    | inr e ↦ h.observed j x (rw (get-put m id j s, e) at g)
  ];
}

pub tag_set-IsOrSet : (r : Replica) (id : Uuid) → TagsFit r.tags → IsOrSet (tag_set r id)
tag_set-IsOrSet r id h = elim (Option-cases (get r.tags id)) [
  | inl e ↦ rw (tag_set, e) new_or_set-IsOrSet
  | inr (s, e) ↦ rw (tag_set, e) (h.observed id s e)
]

pub add_tags-IsOrSet :
    (tokens : ℕ → Uuid) (i : ℕ) (s : OrSet) (tags : List Text)
    → IsOrSet s
    → IsOrSet (add_tags tokens i s tags)
unfolding add_tags OrSet.add
add_tags-IsOrSet tokens i s [] h = h
add_tags-IsOrSet tokens i s (t ∷ rest) h =
    add_tags-IsOrSet tokens (suc i) (add_with_token s t (tokens i)) rest
      (add_with_token-IsOrSet s t (tokens i) h)

pub hydrate_tags-IsOrSet :
    ⦃uuids : UuidPackage⦄
    → (id : Uuid) (s : OrSet) (tags : List Text) → IsOrSet s
    → IsOrSet (hydrate_tags id s tags)
unfolding hydrate_tags
hydrate_tags-IsOrSet ⦃uuids⦄ id s [] h = h
hydrate_tags-IsOrSet ⦃uuids⦄ id s (t ∷ rest) h =
    hydrate_tags-IsOrSet id (add_with_token s t (uuids.new_sha1 id t)) rest
      (add_with_token-IsOrSet s t (uuids.new_sha1 id t) h)

remove_missing-IsOrSet :
    (new_tags : GoSet Text) (s : OrSet) (l : List Text)
    → IsOrSet s
    → IsOrSet (remove_missing new_tags s l)
unfolding remove_missing
remove_missing-IsOrSet new_tags s [] h = h
remove_missing-IsOrSet new_tags s (t ∷ rest) h = elim (Bool-cases (has new_tags t)) [
  | inl e ↦ rw e (remove_missing-IsOrSet new_tags s rest h)
  | inr e ↦ rw e (remove_missing-IsOrSet new_tags (OrSet.remove s t) rest (remove-IsOrSet s t h))
]

add_missing-IsOrSet :
    (tokens : ℕ → Uuid) (i : ℕ) (current : GoSet Text) (s : OrSet) (l : List Text)
    → IsOrSet s
    → IsOrSet (add_missing tokens i current s l)
unfolding add_missing OrSet.add
add_missing-IsOrSet tokens i current s [] h = h
add_missing-IsOrSet tokens i current s (t ∷ rest) h = elim (Bool-cases (has current t)) [
  | inl e ↦ rw e (add_missing-IsOrSet tokens i current s rest h)
  | inr e ↦ rw e (
      add_missing-IsOrSet tokens (suc i) current (add_with_token s t (tokens i)) rest
        (add_with_token-IsOrSet s t (tokens i) h))
]

pub replace_tags-IsOrSet :
    (tokens : ℕ → Uuid) (s : OrSet) (new : List Text)
    → IsOrSet s
    → IsOrSet (replace_tags tokens s new)
unfolding replace_tags
replace_tags-IsOrSet tokens s new h =
    let current = set_of (OrSet.elements s) in
    add_missing-IsOrSet tokens 0 current (remove_missing (set_of new) s (keys current))
      (keys (set_of new)) (remove_missing-IsOrSet (set_of new) s (keys current) h)

pub merge-TagsFit :
    (r other : Replica) → TagsFit r.tags → TagsFit other.tags → TagsFit (merge r other).tags
merge-TagsFit r other h k = record {
  distinct = tags-merge-IsMap r other h.distinct;
  observed = λ id s g.
      joined (get r.tags id) (get other.tags id) s (h.observed id) (k.observed id)
        (sym (tags-merge r other id k.distinct) ∙ g);
}
  where
    joined :
        (o p : Option OrSet) (s : OrSet)
        → ((x : OrSet) → o ≡ some x → IsOrSet x)
        → ((x : OrSet) → p ≡ some x → IsOrSet x)
        → join_tags o p ≡ some s
        → IsOrSet s
    joined o none s ho hp g = ho s g
    joined none (some b) s ho hp g =
        subst IsOrSet (some-injective _ _ g) (clone-IsOrSet b (hp b refl))
    joined (some a) (some b) s ho hp g =
        subst IsOrSet (some-injective _ _ g) (merge-IsOrSet a b (ho a refl) (hp b refl))
