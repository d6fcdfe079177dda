-- ===== src/Crdt/Replica/KeepsMerge.antt =====
-- Deletes, access control lists and merges of internal/crdt/replica.go keep the invariant of
-- replicas.
use mathlib.Core.Path.{subst}
use acorde.Base.{◌+◌, ◌<◌, ◌≡◌, sym, inl, inr, Bool-cases, ◌==◌, arith}
use acorde.Core.Uuid.{Uuid}
use acorde.Core.Clock.{u64_mod, tick, update, tick_lem, update_lem}
use acorde.Core.Entry.{Acl}
use acorde.Crdt.Replica.{Replica, ok, delete_entry}
use acorde.Crdt.Replica.Keeps.{HasTime, ticked-IsReplica}
use acorde.Crdt.Replica.Outcomes.{delete_ok}
use acorde.Crdt.Replica.Acls.{set_acl, merge, max_timestamp}
use acorde.Crdt.Replica.TagSets.{merge-TagsFit}
use acorde.Crdt.Replica.Latest.{max-le, element-le-max, acl-le-max}
use acorde.Crdt.Replica.Invariant.{
  EntriesBy, AclsBy, IsReplica, EntriesBy-mono, AclsBy-mono, remove-EntriesBy, merge-EntriesBy,
  put_acl-AclsBy, merge-AclsBy,
}

module _ (r : Replica) (h : IsReplica r) where
  -- A delete that succeeds keeps the invariant, short of the last value of the clock.
  pub delete_entry-IsReplica :
      (id : Uuid) (r' : Replica) → HasTime r → delete_entry r id ≡ ok r' → IsReplica r'
  delete_entry-IsReplica id r' time e =
      let (_, _, same) = delete_ok r id r' e in
      let (now, later) = tick_lem r.clock time in
      let q = ticked-IsReplica r h time in
      subst IsReplica (sym same) (record {
        entries =
            remove-EntriesBy (tick r.clock).0.time r.entries id (tick r.clock).1 q.entries
              (omega arith);
        tags = h.tags;
        acls = q.acls;
      })

  -- Setting an access control list keeps the invariant of a replica, short of the last value of
  -- the clock, for the replica and for the list.
  pub set_acl-IsReplica :
      (acl : Acl) → HasTime r → acl.timestamp + 1 < u64_mod → IsReplica (set_acl r acl)
  unfolding set_acl
  set_acl-IsReplica acl time room = elim (Bool-cases (acl.timestamp == 0)) [
    | inl e ↦
        let q = ticked-IsReplica r h time in
        let (now, later) = tick_lem r.clock time in
        rw e (record {
          entries = q.entries;
          tags = q.tags;
          acls =
              put_acl-AclsBy (tick r.clock).0.time r.acls
                (record acl { timestamp = (tick r.clock).1 }) q.acls (omega arith);
        })
    | inr e ↦
        let (past, beyond, _, _) = update_lem r.clock acl.timestamp time room in
        rw e (record {
          entries = EntriesBy-mono (omega arith) h.entries;
          tags = h.tags;
          acls =
              put_acl-AclsBy (update r.clock acl.timestamp).0.time r.acls acl
                (AclsBy-mono (omega arith) h.acls) (omega arith);
        })
  ]

  -- A merge of two replicas that keep the invariant keeps it, short of the last value of the two
  -- clocks, and leaves the clock later than it was and later than every time that the other
  -- replica held.
  pub merge-IsReplica :
      (other : Replica)
      → IsReplica other
      → HasTime r
      → HasTime other
      → IsReplica (merge r other)
        × (r.clock.time < (merge r other).clock.time)
        × (max_timestamp other < (merge r other).clock.time)
  unfolding merge
  merge-IsReplica other k time room =
      let latest =
        max-le other other.clock.time k.entries.fit.distinct k.acls.distinct k.entries.by
          k.acls.by in
      let (past, beyond, _, _) = update_lem r.clock (max_timestamp other) time (omega arith) in
      let t = (update r.clock (max_timestamp other)).0.time in
      let theirs : EntriesBy (max_timestamp other) other.entries = record {
        fit = k.entries.fit;
        by = element-le-max other;
      } in
      let lists : AclsBy (max_timestamp other) other.acls = record {
        distinct = k.acls.distinct;
        keyed = k.acls.keyed;
        by = acl-le-max other;
      } in
      (
        record {
          entries =
              merge-EntriesBy t r.entries other.entries (EntriesBy-mono (omega arith) h.entries)
                (EntriesBy-mono (omega arith) theirs);
          tags = merge-TagsFit r other h.tags k.tags;
          acls =
              merge-AclsBy t r other (AclsBy-mono (omega arith) h.acls)
                (AclsBy-mono (omega arith) lists);
        },
        past,
        beyond,
      )
