-- ===== src/Crdt/Tests.antt =====
-- The sample replicas of the tests: one replica that holds a note with a tag, and another with a
-- note of its own.
pub mod Merges
pub mod Edits
pub mod Sets
use acorde.Base.{ℕ, ◌+◌, ◌<◌, ◌≡◌, refl, List, [], ◌∷◌, arith, none, some}
use acorde.Base.Text.{Text, codes}
use acorde.Core.Uuid.{Uuid, UuidPackage}
use acorde.Core.Clock.{Clock, new_clock, new_clock_with_time, tick}
use acorde.GoMap.{assoc, assign, get}
use acorde.Crdt.Lww
use acorde.Crdt.OrSet
use acorde.Crdt.Replica.{
  Replica, new_replica, add_entry_with_id, add_tags, get_entry, get_entry_with_tags,
}
use acorde.Crdt.Replica.Invariant.{IsReplica}
use acorde.Crdt.Replica.Keeps.{HasTime, new_replica-IsReplica, add_entry_with_id-IsReplica}

-- an id is written as one byte
abbrev number : Text → Uuid
number [] = 0
number (id ∷ rest) = id

instance abbrev pub sample_uuids : UuidPackage
sample_uuids = record {
  string = λ id. id ∷ [];
  parse = number;
  new_sha1 = λ space name. space;
  parse-string = λ id. refl;
}

-- the draws of uuid.New() on the two replicas
abbrev pub left_tokens : ℕ → Uuid
left_tokens i = 100 + i

abbrev pub right_tokens : ℕ → Uuid
right_tokens i = 200 + i

abbrev pub empty_replica : Replica
empty_replica = new_replica (new_clock_with_time 0)

abbrev pub work : Text
work = codes "work"

abbrev pub left : Replica
left = (add_entry_with_id left_tokens empty_replica 7 (codes "note") (1 ∷ 2 ∷ []) (work ∷ [])).0

abbrev pub right : Replica
right = (add_entry_with_id right_tokens empty_replica 8 (codes "log") (3 ∷ []) []).0

-- what a test has to see through to run the sample
pub sample : Unit {0}
unfolding new_clock_with_time add_entry_with_id tick Lww.add assoc assign add_tags OrSet.add
    get_entry_with_tags
sample = tt

pub empty-IsReplica : IsReplica empty_replica
empty-IsReplica = new_replica-IsReplica (new_clock_with_time 0)

pub empty-HasTime : HasTime empty_replica
unfolding new_clock_with_time
empty-HasTime = omega arith

pub left-IsReplica : IsReplica left
left-IsReplica =
    add_entry_with_id-IsReplica empty_replica empty-IsReplica left_tokens 7 (codes "note")
      (1 ∷ 2 ∷ []) (work ∷ []) empty-HasTime

pub right-IsReplica : IsReplica right
right-IsReplica =
    add_entry_with_id-IsReplica empty_replica empty-IsReplica right_tokens 8 (codes "log") (3 ∷ [])
      [] empty-HasTime

pub left-HasTime : HasTime left
unfolding sample
left-HasTime = omega arith

pub right-HasTime : HasTime right
unfolding sample
right-HasTime = omega arith
