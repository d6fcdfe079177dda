-- ===== src/Crdt/Replica/Converge.antt =====
-- Replicas that merge converge: internal/crdt/replica.go, `Merge`.
use acorde.Base.{◌≡◌, refl, Option, none, some}
use acorde.Base.Equality.{nat_eq}
use acorde.Core.Uuid.{Uuid}
use acorde.GoMap.{get, IsMap, SameMap}
use acorde.GoMap.Join.{Tied, join_comm, join_assoc, join_idem}
use acorde.Crdt.Lww
use acorde.Crdt.Lww.Merge.{Agree}
use acorde.Crdt.OrSet
use acorde.Crdt.OrSet.{OrSet, tag_token_eq}
use acorde.Crdt.OrSet.Merge.{
  SameOrSet, SameOrSet-refl, SameOrSet-sym, SameOrSet-trans, merge_congr, clone_lem,
}
use acorde.Crdt.Replica.{Replica}
use acorde.Crdt.Replica.Acls.{merge}
use acorde.Crdt.Replica.Registers.{
  compare_acls, compare_acls-IsWeakOrder, join_tags, tags-merge, acls-merge, tags-merge-IsMap,
  acls-merge-IsMap,
}

-- the maps of a replica hold no key twice
pub record HasMaps (r : Replica) : Type 0 where
  pub entries : IsMap r.entries.elements
  pub tags : IsMap r.tags
  pub acls : IsMap r.acls

-- both absent, or sets of the same tokens
abbrev pub SameTags : Option OrSet → Option OrSet → Type 0
SameTags none none = Unit
SameTags (some s) (some t) = SameOrSet s t
SameTags _ _ = ⊥

-- two replicas agree up to ties: at every id, elements that no merge prefers to one another, the
-- same tokens, and lists that no merge prefers to one another
pub record Converged (r s : Replica) : Type 0 where
  pub entries : Agree r.entries s.entries
  pub tags : (id : Uuid) → SameTags (get r.tags id) (get s.tags id)
  pub acls : (id : Uuid) → Tied compare_acls (get r.acls id) (get s.acls id)

-- two replicas that hold the same: the same elements and lists, and the same tokens
pub record SameReplica (r s : Replica) : Type 0 where
  pub entries : SameMap r.entries.elements s.entries.elements
  pub tags : (id : Uuid) → SameTags (get r.tags id) (get s.tags id)
  pub acls : SameMap r.acls s.acls

merge-HasMaps : (r s : Replica) → HasMaps r → HasMaps s → HasMaps (merge r s)
unfolding merge
merge-HasMaps r s h k = record {
  entries = Lww.Merge.merge-IsMap r.entries s.entries h.entries;
  tags = tags-merge-IsMap r s h.tags;
  acls = acls-merge-IsMap r s h.acls;
}

join_tags_comm : (o p : Option OrSet) → SameTags (join_tags o p) (join_tags p o)
join_tags_comm none none = tt
join_tags_comm none (some b) = clone_lem b
join_tags_comm (some a) none = SameOrSet-sym (clone_lem a)
join_tags_comm (some a) (some b) = OrSet.Merge.merge_comm a b

join_tags_idem : (o : Option OrSet) → SameTags (join_tags o o) o
join_tags_idem none = tt
join_tags_idem (some a) = OrSet.Merge.merge_idem a

join_tags_assoc :
    (o p q : Option OrSet) → SameTags (join_tags (join_tags o p) q) (join_tags o (join_tags p q))
join_tags_assoc none none none = tt
join_tags_assoc (some a) none none = SameOrSet-refl a
join_tags_assoc none (some b) none = SameOrSet-refl (OrSet.clone b)
join_tags_assoc (some a) (some b) none = SameOrSet-refl (OrSet.merge a b)
join_tags_assoc none none (some c) = SameOrSet-sym (clone_lem (OrSet.clone c))
join_tags_assoc (some a) none (some c) =
    merge_congr (SameOrSet-refl a) (SameOrSet-sym (clone_lem c))
join_tags_assoc none (some b) (some c) =
    SameOrSet-trans (merge_congr (clone_lem b) (SameOrSet-refl c))
      (SameOrSet-sym (clone_lem (OrSet.merge b c)))
join_tags_assoc (some a) (some b) (some c) = OrSet.Merge.merge_assoc a b c

module _ (r s : Replica) (hr : HasMaps r) (hs : HasMaps s) where
  -- Two replicas, without double keys, that merge with one another agree on every id, up to ties
  -- that the tests of `Merge` do not break; their tokens are the same.
  pub merge-Converged : Converged (merge r s) (merge s r)
  unfolding merge
  merge-Converged = record {
    entries = Lww.Merge.merge_comm r.entries s.entries hr.entries hs.entries;
    tags = λ id.
        rw (tags-merge r s id hs.tags, tags-merge s r id hr.tags)
          (join_tags_comm (get r.tags id) (get s.tags id));
    acls = λ id.
        rw (acls-merge r s id hs.acls, acls-merge s r id hr.acls)
          (join_comm compare_acls compare_acls-IsWeakOrder (get r.acls id) (get s.acls id));
  }

-- Merging a replica without double keys into itself changes nothing that it holds.
merge-SameReplica : (r : Replica) → HasMaps r → SameReplica (merge r r) r
unfolding merge
merge-SameReplica r h = record {
  entries = Lww.Merge.merge_idem r.entries h.entries;
  tags = λ id. rw (tags-merge r r id h.tags) (join_tags_idem (get r.tags id));
  acls = λ id.
      rw (acls-merge r r id h.acls)
        (join_idem compare_acls compare_acls-IsWeakOrder (get r.acls id));
}

-- the entries of a merge are the merge of the entries
pub entries-merge : (r s : Replica) → (merge r s).entries ≡ Lww.merge r.entries s.entries
unfolding merge
entries-merge r s = refl

module _ (r s u : Replica) (hr : HasMaps r) (hs : HasMaps s) (hu : HasMaps u) where
  -- It does not matter in which groups three replicas without double keys merge: merging one after
  -- the other, or merging what was merged before, leaves a replica that holds the same.
  pub merge_assoc : SameReplica (merge (merge r s) u) (merge r (merge s u))
  merge_assoc = record {
    entries =
        rw (entries-merge, entries-merge, entries-merge, entries-merge)
          (Lww.Merge.merge_assoc r.entries s.entries hr.entries hs.entries u.entries hu.entries);
    tags = λ id.
        rw
          (
            tags-merge (merge r s) u id hu.tags,
            tags-merge r s id hs.tags,
            tags-merge r (merge s u) id (merge-HasMaps s u hs hu).tags,
            tags-merge s u id hu.tags,
          )
          (join_tags_assoc (get r.tags id) (get s.tags id) (get u.tags id));
    acls = λ id.
        rw
          (
            acls-merge (merge r s) u id hu.acls,
            acls-merge r s id hs.acls,
            acls-merge r (merge s u) id (merge-HasMaps s u hs hu).acls,
            acls-merge s u id hu.acls,
          )
          (join_assoc compare_acls compare_acls-IsWeakOrder (get r.acls id) (get s.acls id)
            (get u.acls id));
  }
