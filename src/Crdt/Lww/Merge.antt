-- ===== src/Crdt/Lww/Merge.antt =====
-- `Merge` of internal/crdt/lww.go: each register joins by itself, whatever the order of the loop.
use acorde.Base.{
  ◌≡◌, false, refl, ◌∙◌, Option, none, some, inl, inr, Bool-cases, Option-cases, [], arith, ◌==◌,
  ==_iff, if◌then◌else◌,
}
use acorde.Base.Equality.{nat_eq}
use acorde.Base.Ordered.{is_gt}
use acorde.Core.Uuid.{Uuid}
use acorde.GoMap.{GoMap, get, put, IsMap, SameMap}
use acorde.GoMap.Laws.{get-put, put-IsMap}
use acorde.GoMap.Range.{visit, get-foldl, foldl-IsMap}
use acorde.GoMap.Join.{join, Tied, join_idem, join_assoc, join_comm}
use acorde.Crdt.Lww.{LwwElement, LwwSet, merge_element, merge}
use acorde.Crdt.Lww.Order.{
  compare_elements, compare_elements-IsWeakOrder, compare_elements-eq_iff, compare_bytes-eq_iff,
  compare_tags-eq_iff,
}

-- the ladder of tests is the comparison of the two elements
merge_known :
    (m : GoMap Uuid LwwElement) (k : Uuid) (w a : LwwElement)
    → get m k ≡ some a
    → merge_element m (k, w) ≡ (if is_gt (compare_elements w a) then put m k w else m)
unfolding merge_element compare_elements
merge_known m k w a e =
    ground (arith, (compare_bytes-eq_iff [] []).1 refl, (compare_tags-eq_iff [] []).1 refl)

merge_unknown :
    (m : GoMap Uuid LwwElement) (k : Uuid) (w : LwwElement)
    → get m k ≡ none
    → merge_element m (k, w) ≡ put m k w
unfolding merge_element
merge_unknown m k w e = ground arith

-- one turn of the loop joins the register of its key and leaves the others
merge_element_lem :
    (m : GoMap Uuid LwwElement) (k j : Uuid) (w : LwwElement)
    → get (merge_element m (k, w)) j
      ≡ (if k == j then join compare_elements (get m k) (some w) else get m j)
merge_element_lem m k j w = elim (Option-cases (get m k)) [
  | inl e ↦ rw (merge_unknown m k w e, e) (get-put m k j w)
  | inr (a, e) ↦ elim (Bool-cases (is_gt (compare_elements w a))) [
    | inl g ↦ rw (merge_known m k w a e, e, join, g) (get-put m k j w)
    | inr g ↦ rw (merge_known m k w a e, e, join, g) (ground (arith, ==_iff k j))
  ]
]

merge_element-IsMap :
    (m : GoMap Uuid LwwElement) (k : Uuid) (w : LwwElement)
    → IsMap m
    → IsMap (merge_element m (k, w))
merge_element-IsMap m k w d = elim (Option-cases (get m k)) [
  | inl e ↦ rw (merge_unknown m k w e) (put-IsMap m k w d)
  | inr (a, e) ↦ elim (Bool-cases (is_gt (compare_elements w a))) [
    | inl g ↦ rw (merge_known m k w a e, g) (put-IsMap m k w d)
    | inr g ↦ rw (merge_known m k w a e, g) d
  ]
]

visit-join :
    (o p : Option LwwElement)
    → visit (λ old w. join compare_elements old (some w)) o p ≡ join compare_elements o p
visit-join none none = refl
visit-join (some a) none = refl
visit-join o (some b) = refl

-- After a merge every register holds the join of the two registers.
pub get-merge :
    (s other : LwwSet) (id : Uuid)
    → IsMap other.elements
    → get (merge s other).elements id
      ≡ join compare_elements (get s.elements id) (get other.elements id)
unfolding merge
get-merge s other id d =
    get-foldl merge_element (λ _ old w. join compare_elements old (some w)) merge_element_lem
      other.elements.entries s.elements id d
    ∙ visit-join (get s.elements id) (get other.elements id)

pub merge-IsMap : (s other : LwwSet) → IsMap s.elements → IsMap (merge s other).elements
unfolding merge
merge-IsMap s other d =
    foldl-IsMap merge_element (λ _ old w. join compare_elements old (some w)) merge_element-IsMap
      other.elements.entries s.elements d

-- two sets that agree up to ties, register by register
abbrev pub Agree : LwwSet → LwwSet → Type 0
Agree s t = (id : Uuid) → Tied compare_elements (get s.elements id) (get t.elements id)

-- Merging a set into itself changes no register.
pub merge_idem : (s : LwwSet) → IsMap s.elements → SameMap (merge s s).elements s.elements
merge_idem s ds id =
    rw (get-merge s s id ds)
      (join_idem compare_elements compare_elements-IsWeakOrder (get s.elements id))

module _ (s t : LwwSet) (ds : IsMap s.elements) (dt : IsMap t.elements) where
  -- Merging in the two orders gives sets that agree up to ties: at every id both hold nothing, or
  -- elements of one timestamp that are both tombstones, or both live with one content and tags.
  pub merge_comm : Agree (merge s t) (merge t s)
  merge_comm id =
      rw (get-merge s t id dt, get-merge t s id ds)
        (join_comm compare_elements compare_elements-IsWeakOrder (get s.elements id)
          (get t.elements id))

  -- Merging in turn, or merging what was merged before, leaves the same in every register.
  pub merge_assoc :
      (u : LwwSet)
      → IsMap u.elements
      → SameMap (merge (merge s t) u).elements (merge s (merge t u)).elements
  merge_assoc u du id =
      rw
        (
          get-merge (merge s t) u id du,
          get-merge s t id dt,
          get-merge s (merge t u) id (merge-IsMap t u dt),
          get-merge t u id du,
        )
        (join_assoc compare_elements compare_elements-IsWeakOrder (get s.elements id)
          (get t.elements id) (get u.elements id))

-- A tie is not broken: where two sets without double keys hold at an id elements of one time that
-- are both tombstones, or both live with one content and tags, each merge keeps the element that
-- its own side had, so two different elements stay different.
pub merge_tie :
    (s t : LwwSet) (id : Uuid) (a b : LwwElement)
    → IsMap s.elements
    → IsMap t.elements
    → get s.elements id ≡ some a
    → get t.elements id ≡ some b
    → a.timestamp ≡ b.timestamp
    → a.deleted ≡ b.deleted
    → (a.deleted ≡ false → (a.entry.content ≡ b.entry.content) × (a.entry.tags ≡ b.entry.tags))
    → (get (merge s t).elements id ≡ some a) × (get (merge t s).elements id ≡ some b)
merge_tie s t id a b ds dt ha hb time flag same =
    let tie = (compare_elements-eq_iff a b).1 (time, flag, same) in
    (
      get-merge s t id dt ∙ ground (arith, ha, hb, tie, compare_elements-IsWeakOrder.flip a b),
      get-merge t s id ds ∙ ground (arith, ha, hb, tie),
    )
