-- ===== src/Crdt/Tests/Merges.antt =====
-- Merges, syncs and deltas of the sample replicas.
use acorde.Base.{◌≡◌, false, ◌≤◌, ==_iff, refl, some, [], ◌∷◌, arith}
use acorde.Base.Equality.{nat_eq}
use acorde.Core.Uuid.{Uuid}
use acorde.Base.Text.{codes}
use acorde.Core.Clock.{new_clock_with_time}
use acorde.GoMap.{get}
use acorde.Crdt.Lww.{LwwElement}
use acorde.Crdt.Replica.{Replica, new_replica, add_entry_with_id}
use acorde.Crdt.Replica.Acls.{merge}
use acorde.Crdt.Replica.Converge.{Converged, SameReplica, merge-Converged}
use acorde.Crdt.Replica.Invariant.{IsReplica}
use acorde.Crdt.State.{state, load_state, delta_state, apply_delta}
use acorde.Crdt.State.Sync.{IsReplica-HasMaps}
use acorde.Crdt.State.RoundTrip.{load-state}
use acorde.Crdt.State.Delta.{AtLeast, apply_delta_tie}
use acorde.Crdt.State.Sync.{HasTimes}
use acorde.Crdt.Replica.Keeps.{add_entry_with_id-IsReplica}
use acorde.Crdt.Tests.Edits.{note, left_note}
use acorde.Crdt.Tests.{
  right_tokens, sample_uuids, left, right, empty_replica, left-IsReplica, right-IsReplica,
  empty-IsReplica, empty-HasTime, sample,
}

pub left-HasTimes : HasTimes left
unfolding sample
left-HasTimes id a h = absurd (cc)

pub right-HasTimes : HasTimes right
unfolding sample
right-HasTimes id a h = absurd (cc)

load-state_example :
    SameReplica (load_state (new_replica (new_clock_with_time 0)) (state left)) left
load-state_example = load-state left (new_clock_with_time 0) left-IsReplica left-HasTimes

merge-Converged_example : Converged (merge left right) (merge right left)
merge-Converged_example =
    merge-Converged left right (IsReplica-HasMaps left-IsReplica)
      (IsReplica-HasMaps right-IsReplica)

-- the left replica with one more entry
abbrev grown : Replica
grown = (add_entry_with_id right_tokens left 9 (codes "file") (5 ∷ []) []).0

-- the left replica has everything that the grown one had at time 1
seen :
    (id : Uuid) (el : LwwElement)
    → get grown.entries.elements id ≡ some el
    → el.timestamp ≤ 1
    → AtLeast left.entries id el.timestamp
unfolding sample
seen id el there le = (el, ground (arith, ==_iff 9 id, ==_iff 7 id), omega arith)

abbrev pub file : LwwElement
file = record {
  entry = record {
    id = 9;
    type = codes "file";
    content = 5 ∷ [];
    tags = [];
    created_at = 2;
    updated_at = 2;
    deleted = false;
  };
  timestamp = 2;
  deleted = false;
}

-- a replica that holds another version of the note, of the same time
abbrev twin : Replica
twin = (add_entry_with_id right_tokens empty_replica 7 (codes "note") (9 ∷ []) []).0

twin-IsReplica : IsReplica twin
twin-IsReplica =
    add_entry_with_id-IsReplica empty_replica empty-IsReplica right_tokens 7 (codes "note") (9 ∷ [])
      [] empty-HasTime

abbrev twin_note : LwwElement
twin_note = record note { entry = record (note.entry) { content = 9 ∷ [] } }

twin_7 : get twin.entries.elements 7 ≡ some twin_note
unfolding sample
twin_7 = refl

apply_delta_tie_example : get (apply_delta left (delta_state twin 0)).entries.elements 7 ≡ some note
apply_delta_tie_example =
    apply_delta_tie 0 left twin left-IsReplica twin-IsReplica 7 note twin_note left_note twin_7 refl
