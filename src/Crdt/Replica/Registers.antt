-- ===== src/Crdt/Replica/Registers.antt =====
-- `Merge` of internal/crdt/replica.go and `SetACL`, one register at a time: the tag set and the
-- access control list that an id has after the loops.
use Prim.Native.Nat.{compare}
use acorde.Base.{
  ℕ, ◌≡◌, refl, ◌∙◌, Option, none, some, ◌==◌, ==_iff, if◌then◌else◌, inl, inr, Option-cases,
  Bool-cases, arith,
}
use acorde.Base.Equality.{nat_eq}
use acorde.Base.Ordered.{
  Ordering, is_gt, IsWeakOrder, nat_order, lex, on, lex-IsWeakOrder, on-IsWeakOrder,
}
use acorde.Base.Text.{Text, compare_text, text_order}
use acorde.Core.Uuid.{Uuid}
use acorde.Core.Entry.{Acl}
use acorde.GoMap.{GoMap, get, put, IsMap}
use acorde.GoMap.Laws.{get-put, put-IsMap}
use acorde.GoMap.Range.{visit, get-foldl, foldl-IsMap}
use acorde.GoMap.Join.{join}
use acorde.Crdt.OrSet
use acorde.Crdt.OrSet.{OrSet}
use acorde.Crdt.Replica.{Replica}
use acorde.Crdt.Replica.Acls.{put_acl, merge_tags, merge}

-- the later time, then the greater owner
abbrev acl_time : Acl → ℕ
acl_time a = a.timestamp

abbrev acl_owner : Acl → Text
acl_owner a = a.owner

unfoldable pub compare_acls : Acl → Acl → Ordering
compare_acls = lex (on compare acl_time) (on compare_text acl_owner)

pub compare_acls-IsWeakOrder : IsWeakOrder compare_acls
unfolding compare_acls
compare_acls-IsWeakOrder =
    lex-IsWeakOrder (on-IsWeakOrder acl_time nat_order) (on-IsWeakOrder acl_owner text_order)

put_acl_known :
    (m : GoMap Uuid Acl) (k : Uuid) (w a : Acl)
    → get m k ≡ some a
    → put_acl m (k, w) ≡ (if is_gt (compare_acls w a) then put m k w else m)
unfolding put_acl compare_acls
put_acl_known m k w a e = ground arith

put_acl_unknown :
    (m : GoMap Uuid Acl) (k : Uuid) (w : Acl) → get m k ≡ none → put_acl m (k, w) ≡ put m k w
unfolding put_acl
put_acl_unknown m k w e = ground arith

-- a write of a list joins the register of its key and leaves the others
pub get-put_acl :
    (m : GoMap Uuid Acl) (k j : Uuid) (w : Acl)
    → get (put_acl m (k, w)) j ≡ (if k == j then join compare_acls (get m k) (some w) else get m j)
get-put_acl m k j w = elim (Option-cases (get m k)) [
  | inl e ↦ rw (put_acl_unknown m k w e, e) (get-put m k j w)
  | inr (a, e) ↦ elim (Bool-cases (is_gt (compare_acls w a))) [
    | inl g ↦ rw (put_acl_known m k w a e, e, join, g) (get-put m k j w)
    | inr g ↦ rw (put_acl_known m k w a e, e, join, g) (ground (arith, ==_iff k j, e))
  ]
]

pub put_acl-IsMap : (m : GoMap Uuid Acl) (k : Uuid) (w : Acl) → IsMap m → IsMap (put_acl m (k, w))
put_acl-IsMap m k w d = elim (Option-cases (get m k)) [
  | inl e ↦ rw (put_acl_unknown m k w e) (put-IsMap m k w d)
  | inr (a, e) ↦ elim (Bool-cases (is_gt (compare_acls w a))) [
    | inl g ↦ rw (put_acl_known m k w a e, g) (put-IsMap m k w d)
    | inr g ↦ rw (put_acl_known m k w a e, g) d
  ]
]

visit_acl :
    (o p : Option Acl) → visit (λ old w. join compare_acls old (some w)) o p ≡ join compare_acls o p
visit_acl none none = refl
visit_acl (some a) none = refl
visit_acl o (some b) = refl

-- the tag set that a merge leaves at an id
abbrev pub join_tags : Option OrSet → Option OrSet → Option OrSet
join_tags o none = o
join_tags none (some b) = some (OrSet.clone b)
join_tags (some a) (some b) = some (OrSet.merge a b)

get-merge_tags :
    (m : GoMap Uuid OrSet) (k j : Uuid) (w : OrSet)
    → get (merge_tags m (k, w)) j ≡ (if k == j then join_tags (get m k) (some w) else get m j)
unfolding merge_tags
get-merge_tags m k j w = elim (Option-cases (get m k)) [
  | inl e ↦ rw (e, merge_tags, join_tags) (get-put m k j (OrSet.clone w))
  | inr (a, e) ↦ rw (e, merge_tags, join_tags) (get-put m k j (OrSet.merge a w))
]

merge_tags-IsMap :
    (m : GoMap Uuid OrSet) (k : Uuid) (w : OrSet) → IsMap m → IsMap (merge_tags m (k, w))
unfolding merge_tags
merge_tags-IsMap m k w d = elim (Option-cases (get m k)) [
  | inl e ↦ rw (e, merge_tags) (put-IsMap m k (OrSet.clone w) d)
  | inr (a, e) ↦ rw (e, merge_tags) (put-IsMap m k (OrSet.merge a w) d)
]

visit_tags : (o p : Option OrSet) → visit (λ old w. join_tags old (some w)) o p ≡ join_tags o p
visit_tags o none = refl
visit_tags o (some b) = refl

module _ (r other : Replica) where
  pub tags-merge :
      (id : Uuid)
      → IsMap other.tags
      → get (merge r other).tags id ≡ join_tags (get r.tags id) (get other.tags id)
  unfolding merge
  tags-merge id d =
      get-foldl merge_tags (λ _ old w. join_tags old (some w)) get-merge_tags other.tags.entries
        r.tags id d
      ∙ visit_tags (get r.tags id) (get other.tags id)

  pub acls-merge :
      (id : Uuid)
      → IsMap other.acls
      → get (merge r other).acls id ≡ join compare_acls (get r.acls id) (get other.acls id)
  unfolding merge
  acls-merge id d =
      get-foldl put_acl (λ _ old w. join compare_acls old (some w)) get-put_acl other.acls.entries
        r.acls id d
      ∙ visit_acl (get r.acls id) (get other.acls id)

  pub tags-merge-IsMap : IsMap r.tags → IsMap (merge r other).tags
  unfolding merge
  tags-merge-IsMap d =
      foldl-IsMap merge_tags (λ _ old w. join_tags old (some w)) merge_tags-IsMap other.tags.entries
        r.tags d

  pub acls-merge-IsMap : IsMap r.acls → IsMap (merge r other).acls
  unfolding merge
  acls-merge-IsMap d =
      foldl-IsMap put_acl (λ _ old w. join compare_acls old (some w)) put_acl-IsMap
        other.acls.entries r.acls d
