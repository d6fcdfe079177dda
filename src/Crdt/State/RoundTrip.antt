-- ===== src/Crdt/State/RoundTrip.antt =====
-- Loading the state that a replica exports gives a replica that holds the same: `State` and
-- `LoadState` of internal/crdt/replica.go.
use mathlib.Core.Path.{subst}
use acorde.Base.{◌≡◌, ◌≢◌, refl, sym, ◌∙◌, ap, Option, none, some, foldl}
use acorde.Base.Equality.{nat_eq}
use acorde.Core.Uuid.{Uuid, UuidPackage}
use acorde.Core.Clock.{Clock}
use acorde.Core.Entry.{Acl}
use acorde.GoMap
use acorde.GoMap.{GoMap, assoc, get, put, values, keys, has, IsMap, Distinct, SameMap}
use acorde.GoMap.Range.{visit, get-foldl}
use acorde.GoMap.Join.{join}
use acorde.Crdt.Lww
use acorde.Crdt.Lww.{LwwSet, LwwElement, element_of, all_elements}
use acorde.Crdt.Lww.Invariant.{new_lww_set-IsLww}
use acorde.Crdt.OrSet.{OrSet, tag_token_eq}
use acorde.Crdt.OrSet.Merge.{IsOrSet}
use acorde.Crdt.Replica.{Replica, new_replica}
use acorde.Crdt.Replica.Acls.{put_acl}
use acorde.Crdt.Replica.Registers.{compare_acls, get-put_acl}
use acorde.Crdt.Replica.Converge.{SameReplica, SameTags}
use acorde.Crdt.Replica.Invariant.{IsReplica}
use acorde.Crdt.State.Loads.{
  get-load_elements, load-export_tag_set, each, get-export_tags, export_tags-IsMap, get-load_tags,
  entries-load_acls, tags-load_acls, acls-load_acls,
}
use acorde.Crdt.State.{
  export_tag_set, export_tags, state, load_tag_set, load_tags, load_element, load_state,
}

visit-some {ℓ} : {A : Type ℓ} (o : Option A) → visit (λ _ w. some w) none o ≡ o
visit-some none = refl
visit-some (some a) = refl

-- the replica before its lists are loaded
abbrev loaded : ⦃uuids : UuidPackage⦄ → Replica → Clock → Replica
loaded r clock = record {
  entries = foldl load_element Lww.new_lww_set (values r.entries.elements);
  tags = foldl load_tags GoMap.empty (export_tags r).entries;
  acls = GoMap.empty;
  clock = clock;
}

same_tags :
    (o : Option OrSet)
    → ((s : OrSet) → o ≡ some s → IsOrSet s)
    → SameTags (each load_tag_set (each export_tag_set o)) o
same_tags none h = tt
same_tags (some s) h = load-export_tag_set s (h s refl)

visit-join : (o : Option Acl) → visit (λ old w. join compare_acls old (some w)) none o ≡ o
visit-join none = refl
visit-join (some a) = refl

-- Loading the exported state of a replica that keeps the invariant into a new replica gives a
-- replica that holds the same elements and lists and the same tokens, if every list has a time.
pub load-state :
    ⦃uuids : UuidPackage⦄
    → (r : Replica) (clock : Clock) → IsReplica r
    → ((id : Uuid) (a : Acl) → get r.acls id ≡ some a → a.timestamp ≢ 0)
    → SameReplica (load_state (new_replica clock) (state r)) r
unfolding load_state state all_elements assoc
load-state r clock h timed = record {
  entries = λ id.
      ap (λ s. get s.elements id) (entries-load_acls r.acls.entries (loaded r clock))
      ∙ get-load_elements r.entries.elements.entries Lww.new_lww_set id new_lww_set-IsLww
          h.entries.fit.distinct h.entries.fit.at (λ k w g. refl)
      ∙ visit-some (get r.entries.elements id);
  tags = λ id.
      subst (λ o. SameTags o (get r.tags id))
        (sym (
          ap (λ m. get m id) (tags-load_acls r.acls.entries (loaded r clock))
          ∙ get-load_tags (export_tags r) id (export_tags-IsMap r)
          ∙ ap (each load_tag_set) (get-export_tags r id h.tags.distinct)))
        (same_tags (get r.tags id) (h.tags.observed id));
  acls = λ id.
      ap (λ m. get m id)
        (acls-load_acls r.acls.entries (loaded r clock) h.acls.distinct
          (λ k a g. (h.acls.keyed k a g, timed k a g)))
      ∙ get-foldl put_acl (λ _ old w. join compare_acls old (some w)) get-put_acl r.acls.entries
          GoMap.empty id h.acls.distinct
      ∙ visit-join (get r.acls id);
}
