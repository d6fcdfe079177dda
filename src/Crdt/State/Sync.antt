-- ===== src/Crdt/State/Sync.antt =====
-- Two replicas that exchange their states converge: the replica's part of `ApplySyncState` and
-- `ApplyRemotePayload`, internal/engine/engine_impl.go.
use mathlib.Core.Path.{subst}
use acorde.Base.{
  ◌≡◌, ◌≢◌, sym, ap, Option, none, some, inl, inr, Bool-cases, ◌==◌, List, [], ◌∷◌, foldl,
}
use acorde.Base.Equality.{nat_eq}
use acorde.Core.Uuid.{Uuid, UuidPackage}
use acorde.Core.Clock.{Clock, tick, new_clock_with_time}
use acorde.Core.Entry.{Acl}
use acorde.GoMap
use acorde.GoMap.{GoMap, get, IsMap, SameMap}
use acorde.GoMap.Laws.{put-IsMap}
use acorde.GoMap.Range.{foldl-IsMap}
use acorde.GoMap.Join.{join}
use acorde.Crdt.Lww
use acorde.Crdt.Lww.{LwwSet, LwwElement}
use acorde.Crdt.Lww.Order.{compare_elements}
use acorde.Crdt.Lww.Merge.{get-merge}
use acorde.Crdt.Lww.Invariant.{IsLww, new_lww_set-IsLww}
use acorde.Crdt.OrSet.{OrSet}
use acorde.Crdt.OrSet.Merge.{SameOrSet-refl, SameOrSet-sym, SameOrSet-trans, merge_congr, clone_lem}
use acorde.Crdt.Replica.{Replica, new_replica}
use acorde.Crdt.Replica.Acls.{set_acl, merge}
use acorde.Crdt.Replica.Registers.{put_acl-IsMap, compare_acls, join_tags, tags-merge, acls-merge}
use acorde.Crdt.Replica.Converge.{
  HasMaps, SameTags, SameReplica, Converged, merge-Converged, entries-merge,
}
use acorde.Crdt.Replica.Invariant.{IsReplica}
use acorde.Crdt.State.Loads.{load_element-IsLww, entries-load_acls, tags-load_acls}
use acorde.Crdt.State.RoundTrip.{load-state}
use acorde.Crdt.State.{
  ReplicaState, state, load_acl, load_tags, load_tag_set, load_element, load_state,
}

-- a temporary replica is loaded with the state that came in, and merged
unfoldable pub apply_sync_replica : ⦃uuids : UuidPackage⦄ → Replica → ReplicaState → Replica
apply_sync_replica r st = merge r (load_state (new_replica (new_clock_with_time st.clock_time)) st)

pub IsReplica-HasMaps : {r : Replica} → IsReplica r → HasMaps r
IsReplica-HasMaps h = record {
  entries = h.entries.fit.distinct;
  tags = h.tags.distinct;
  acls = h.acls.distinct;
}

acls-IsMap-set_acl : (r : Replica) (a : Acl) → IsMap r.acls → IsMap (set_acl r a).acls
unfolding set_acl
acls-IsMap-set_acl r a d = elim (Bool-cases (a.timestamp == 0)) [
  | inl e ↦
      rw (set_acl, e)
        (put_acl-IsMap r.acls a.entry_id (record a { timestamp = (tick r.clock).1 }) d)
  | inr e ↦ rw (set_acl, e) (put_acl-IsMap r.acls a.entry_id a d)
]

acls-IsMap-load_acls :
    (l : List (Uuid × Acl)) (q : Replica) → IsMap q.acls → IsMap (foldl load_acl q l).acls
acls-IsMap-load_acls [] q d = d
acls-IsMap-load_acls ((k, a) ∷ l) q d =
    acls-IsMap-load_acls l (set_acl q a) (acls-IsMap-set_acl q a d)

module _ ⦃uuids : UuidPackage⦄ where
  load_elements-IsLww :
      (l : List LwwElement) (s : LwwSet) → IsLww s → IsLww (foldl load_element s l)
  load_elements-IsLww [] s h = h
  load_elements-IsLww (el ∷ l) s h =
      load_elements-IsLww l (load_element s el) (load_element-IsLww s el h)

  -- whatever the state, a new replica that loads it has maps
  load_state-HasMaps :
      (clock : Clock) (st : ReplicaState) → HasMaps (load_state (new_replica clock) st)
  unfolding load_state
  load_state-HasMaps clock st =
      let q : Replica = record {
        entries = foldl load_element Lww.new_lww_set st.entries;
        tags = foldl load_tags GoMap.empty st.tags.entries;
        acls = GoMap.empty;
        clock = clock;
      } in
      record {
        entries =
            subst (λ (s : LwwSet). IsMap s.elements) (sym (entries-load_acls st.acls.entries q))
              (load_elements-IsLww st.entries Lww.new_lww_set new_lww_set-IsLww).distinct;
        tags =
            subst (λ m. IsMap m) (sym (tags-load_acls st.acls.entries q))
              (foldl-IsMap load_tags (λ _ _ w. some (load_tag_set w))
                (λ m k w. put-IsMap m k (load_tag_set w)) st.tags.entries GoMap.empty tt);
        acls = acls-IsMap-load_acls st.acls.entries q tt;
      }

SameTags-sym : (o p : Option OrSet) → SameTags o p → SameTags p o
SameTags-sym none none h = tt
SameTags-sym none (some b) h = h
SameTags-sym (some a) none h = h
SameTags-sym (some a) (some b) h = SameOrSet-sym h

SameTags-trans : (o p q : Option OrSet) → SameTags o p → SameTags p q → SameTags o q
SameTags-trans none none q h k = k
SameTags-trans none (some b) q h k = absurd h
SameTags-trans (some a) none q h k = absurd h
SameTags-trans (some a) (some b) none h k = k
SameTags-trans (some a) (some b) (some c) h k = SameOrSet-trans h k

join_tags_congr : (o p q : Option OrSet) → SameTags p q → SameTags (join_tags o p) (join_tags o q)
join_tags_congr none none none h = tt
join_tags_congr (some a) none none h = SameOrSet-refl a
join_tags_congr o none (some c) h = absurd h
join_tags_congr o (some b) none h = absurd h
join_tags_congr none (some b) (some c) h =
    SameOrSet-trans (clone_lem b) (SameOrSet-trans h (SameOrSet-sym (clone_lem c)))
join_tags_congr (some a) (some b) (some c) h = merge_congr (SameOrSet-refl a) h

-- merging with replicas that hold the same gives replicas that hold the same
merge-same :
    (r s t : Replica)
    → HasMaps s
    → HasMaps t
    → SameReplica s t
    → SameReplica (merge r s) (merge r t)
merge-same r s t hs ht h = record {
  entries = λ id.
      rw
        (
          entries-merge,
          entries-merge,
          get-merge r.entries s.entries id hs.entries,
          get-merge r.entries t.entries id ht.entries,
        )
        (ap (join compare_elements (get r.entries.elements id)) (h.entries id));
  tags = λ id.
      rw (tags-merge r s id hs.tags, tags-merge r t id ht.tags)
        (join_tags_congr (get r.tags id) (get s.tags id) (get t.tags id) (h.tags id));
  acls = λ id.
      rw (acls-merge r s id hs.acls, acls-merge r t id ht.acls)
        (ap (join compare_acls (get r.acls id)) (h.acls id));
}

-- agreement does not tell apart replicas that hold the same
Converged-same :
    (a b c d : Replica) → SameReplica a b → Converged b c → SameReplica d c → Converged a d
Converged-same a b c d ab bc dc = record {
  entries = λ id. rw (ab.entries id, dc.entries id) (bc.entries id);
  tags = λ id. SameTags-trans (get a.tags id) (get b.tags id) (get d.tags id) (ab.tags id) (
      SameTags-trans (get b.tags id) (get c.tags id) (get d.tags id) (bc.tags id)
        (SameTags-sym (get d.tags id) (get c.tags id) (dc.tags id)));
  acls = λ id. rw (ab.acls id, dc.acls id) (bc.acls id);
}

abbrev pub HasTimes : Replica → Type 0
HasTimes r = (id : Uuid) (a : Acl) → get r.acls id ≡ some a → a.timestamp ≢ 0

-- Two replicas that keep the invariant, exchange the states that they had and apply them agree on
-- every id, up to ties that the tests of `Merge` do not break, and hold the same tokens, if every
-- access control list has a time.
pub sync-Converged :
    ⦃uuids : UuidPackage⦄
    → (r s : Replica) → IsReplica r
    → IsReplica s
    → HasTimes r
    → HasTimes s
    → Converged (apply_sync_replica r (state s)) (apply_sync_replica s (state r))
unfolding apply_sync_replica
sync-Converged r s hr hs tr ts =
    let cr = new_clock_with_time (state s).clock_time in
    let cs = new_clock_with_time (state r).clock_time in
    Converged-same (merge r (load_state (new_replica cr) (state s))) (merge r s) (merge s r)
      (merge s (load_state (new_replica cs) (state r)))
      (merge-same r (load_state (new_replica cr) (state s)) s (load_state-HasMaps cr (state s))
        (IsReplica-HasMaps hs) (load-state s cr hs ts))
      (merge-Converged r s (IsReplica-HasMaps hr) (IsReplica-HasMaps hs))
      (merge-same s (load_state (new_replica cs) (state r)) r (load_state-HasMaps cs (state r))
        (IsReplica-HasMaps hr) (load-state r cs hr tr))
