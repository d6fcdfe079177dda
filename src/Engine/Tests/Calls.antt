-- ===== src/Engine/Tests/Calls.antt =====
-- Calls of an engine in memory by a peer that may read and write, and a sync of two engines.
use acorde.Base.{ℕ, ◌≡◌, refl, true, none, some, [], ◌∷◌, arith}
use acorde.Base.Equality.{nat_eq, list_eq}
use acorde.Base.Text.{codes}
use acorde.Core.Entry.{Entry, zero_entry}
use acorde.GoMap
use acorde.GoMap.{GoMap, get, put, assoc, assign}
use acorde.Crdt.Replica
use acorde.Crdt.Replica.{Replica, Result, is_deleted}
use acorde.Crdt.Tests.Merges.{left-HasTimes, right-HasTimes}
use acorde.Crdt.Tests.{
  sample_uuids, right, right-IsReplica, left, left-IsReplica, left-HasTime, right_tokens,
}
use acorde.Crdt.Tests.Edits.{read_note, left_read, right_tokens-Fresh}
use acorde.Crdt.Replica.Edits.{update_entry-get_entry}
use acorde.AccessControl
use acorde.AccessControl.{can_read, can_write}
use acorde.AccessControl.Tests.{
  plain_json, Rows, table, one_row, one_row-Ready, one_row-get_acl, ann, bob,
}
use acorde.Events.{new_event_bus}
use acorde.Events.Keeps.{new_event_bus-IsEventBus, publish_lem}
use acorde.Events.Subscriptions.{Event}
use acorde.Engine.Backends.{HookEvent}
use acorde.Engine.Changes.{update_entry, store_update}
use acorde.Engine.Remote.{get_sync_state, apply_sync_state, apply_sync_state-Converged}
use acorde.Crdt.Replica.Converge.{Converged}
use acorde.Engine.{EngineImpl, to_internal_entry, OwnedEntry, answer, get_entry}
use acorde.Engine.Tests.{takes_all}
use acorde.Crdt.Replica.{list_entries}
use acorde.Crdt.State.{state}
use acorde.Crdt.State.Sync.{apply_sync_replica}
use acorde.Engine.Tests.{bare_aead, byte_schema, Entries, memory, counted, eve_engine, draws, retag}

-- bob may read and write entry 7
abbrev bob_engine : EngineImpl Rows Entries ℕ ℕ
bob_engine = record eve_engine { local_id = bob; key = none }

abbrev bob_note : OwnedEntry
bob_note = record (to_internal_entry read_note) { owner = ann }

bob_may_read : AccessControl.check_read one_row 7 bob ≡ some true
unfolding AccessControl.check_read AccessControl.get_acl AccessControl.can_read assoc assign
bob_may_read = refl

bob_may_write : AccessControl.check_write one_row 7 bob ≡ some true
unfolding AccessControl.check_write AccessControl.get_acl AccessControl.can_write assoc assign
bob_may_write = refl

bob_reads : get_entry bob_engine 7 ≡ answer bob_note
unfolding get_entry
bob_reads = ground (arith, bob_may_read, left_read, one_row-get_acl)

bob_updates :
    (e' : EngineImpl Rows Entries ℕ ℕ) × (update_entry draws 7 retag bob_engine
      ≡ some (e', answer tt))
unfolding update_entry store_update
bob_updates =
    let (r, _, done, _, _, _, _, _, _) =
      update_entry-get_entry right_tokens left left-IsReplica left-HasTime 7 (some (1 ∷ 2 ∷ []))
        (some []) read_note left_read right_tokens-Fresh in
    let core : Entry = elim (Replica.get_entry r 7) [
      | Result.err _ ↦ zero_entry
      | Result.ok c ↦ c
    ] in
    let event : Event = record {
      type = codes "updated";
      entry_id = 7;
      entry_type = core.type;
      timestamp = 1000;
    } in
    let (events, sent, _, _, _) = publish_lem new_event_bus event new_event_bus-IsEventBus in
    (
      record bob_engine {
        replica = r;
        store = put GoMap.empty core.id core;
        events = events;
        versions = 1;
        hooks = HookEvent.updated 7 core.type (1 ∷ 2 ∷ []) [] ∷ [];
      },
      ground (arith, bob_may_write, left_read, done, sent),
    )

abbrev right_engine : EngineImpl Rows Entries ℕ ℕ
right_engine = record eve_engine { replica = right }

apply_sync_state-Converged_example :
    ((apply_sync_state eve_engine (get_sync_state right_engine)).1 ≡ answer tt)
    × ((apply_sync_state right_engine (get_sync_state eve_engine)).1 ≡ answer tt)
    × Converged
        (apply_sync_state eve_engine (get_sync_state right_engine)).0.replica
        (apply_sync_state right_engine (get_sync_state eve_engine)).0.replica
apply_sync_state-Converged_example =
    apply_sync_state-Converged eve_engine right_engine left-IsReplica right-IsReplica left-HasTimes
      right-HasTimes tt tt (takes_all (list_entries (apply_sync_replica left (state right))))
      (takes_all (list_entries (apply_sync_replica right (state left)))) one_row-Ready one_row-Ready
