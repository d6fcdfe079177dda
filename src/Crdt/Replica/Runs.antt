-- ===== src/Crdt/Replica/Runs.antt =====
-- What a replica of internal/crdt/replica.go can become by its edits, by loading stored entries, and by
-- merges with replicas that came about in the same way. LoadState, which does not move the
-- clock, ApplyDelta and Clone are no such steps.
use acorde.Base.{ℕ, ◌+◌, ◌<◌, ◌≤◌, ◌≡◌, Option, List}
use acorde.Base.Text.{Text}
use acorde.Core.Uuid.{Uuid, UuidPackage}
use acorde.Core.Clock.{Clock, u64_mod}
use acorde.Core.Entry.{Entry, EntryType, Acl}
use acorde.Crdt.Replica.{
  Replica, ok, new_replica, hydrate_entry, add_entry_with_id, update_entry, delete_entry,
}
use acorde.Crdt.Replica.Acls.{set_acl, merge}
use acorde.Crdt.Replica.Invariant.{IsReplica}
use acorde.Crdt.Replica.Keeps.{
  HasTime, new_replica-IsReplica, add_entry_with_id-IsReplica, update_entry-IsReplica,
  hydrate_entry-IsReplica,
}
use acorde.Crdt.Replica.KeepsMerge.{delete_entry-IsReplica, set_acl-IsReplica, merge-IsReplica}

module _ ⦃uuids : UuidPackage⦄ where
  -- An entry is loaded from storage only when the clock has been set past it; every other call
  -- finds the clock short of its last value.
  pub data Run : Replica → Type 0 where
    created : (clock : Clock) → Run (new_replica clock)
    hydrated :
        {r : Replica} (e : Entry) → Run r → e.updated_at ≤ r.clock.time → Run (hydrate_entry r e)
    added :
        {r : Replica} (tokens : ℕ → Uuid) (id : Uuid) (entry_type : EntryType) (content : List ℕ)
        (tags : List Text)
        → Run r
        → HasTime r
        → Run (add_entry_with_id tokens r id entry_type content tags).0
    updated :
        {r r' : Replica} (tokens : ℕ → Uuid) (id : Uuid) (content : Option (List ℕ))
        (tags : Option (List Text))
        → Run r
        → HasTime r
        → update_entry tokens r id content tags ≡ ok r'
        → Run r'
    deleted : {r r' : Replica} (id : Uuid) → Run r → HasTime r → delete_entry r id ≡ ok r' → Run r'
    listed :
        {r : Replica} (acl : Acl)
        → Run r
        → HasTime r
        → acl.timestamp + 1 < u64_mod
        → Run (set_acl r acl)
    merged :
        {r other : Replica} → Run r → Run other → HasTime r → HasTime other → Run (merge r other)

  -- A replica keeps the invariant if it comes from a new one by any calls of HydrateEntry with entries
  -- that its clock is not behind, of AddEntryWithID, UpdateEntry, DeleteEntry and SetACL, and of Merge
  -- with replicas that come about in the same way, as long as no clock and no list reached the last
  -- value of a uint64.
  pub Run-IsReplica : (r : Replica) → Run r → IsReplica r
  Run-IsReplica _ (created clock) = new_replica-IsReplica clock
  Run-IsReplica _ (hydrated {r = r} e run le) = hydrate_entry-IsReplica r (Run-IsReplica r run) e le
  Run-IsReplica _ (added {r = r} tokens id entry_type content tags run time) =
      add_entry_with_id-IsReplica r (Run-IsReplica r run) tokens id entry_type content tags time
  Run-IsReplica _ (updated {r = r} {r' = q} tokens id content tags run time done) =
      update_entry-IsReplica r (Run-IsReplica r run) tokens id content tags q time done
  Run-IsReplica _ (deleted {r = r} {r' = q} id run time done) =
      delete_entry-IsReplica r (Run-IsReplica r run) id q time done
  Run-IsReplica _ (listed {r = r} acl run time room) =
      set_acl-IsReplica r (Run-IsReplica r run) acl time room
  Run-IsReplica _ (merged {r = r} {other = s} run other time room) =
      (merge-IsReplica r (Run-IsReplica r run) s (Run-IsReplica s other) time room).0
