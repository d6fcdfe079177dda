-- ===== src/Crdt/Tests/Edits.antt =====
-- Edits of the sample replica.
use acorde.Base.{◌≡◌, refl, none, some, false, [], ◌∷◌, arith, ◌==◌, if◌then◌else◌, ◌+◌}
use acorde.Base.Equality.{nat_eq, list_eq}
use acorde.Base.Text.{Text, codes}
use acorde.Core.Uuid.{Uuid}
use acorde.Core.Entry.{Entry, Acl}
use acorde.GoMap.{get}
use acorde.Crdt.Lww.{LwwElement}
use acorde.Crdt.OrSet
use acorde.Crdt.OrSet.{OrSet, TagToken}
use acorde.Crdt.Replica.{
  Replica, ok, err, is_deleted, tag_set, new_content, update_entry, delete_entry, get_entry,
}
use acorde.Crdt.Replica.Acls
use acorde.Core.Clock.{update, new_clock_with_time}
use acorde.Crdt.Lww
use acorde.Crdt.Replica.Acls.{set_acl, merge}
use acorde.Crdt.Replica.Runs.{Run, Run-IsReplica}
use acorde.Crdt.Replica.Keeps.{HasTime}
use acorde.Crdt.Replica.TagEdits.{Fresh}
use acorde.Crdt.Replica.Invariant.{IsReplica}
use acorde.Crdt.Replica.Edits.{
  tagged, TagsAfter, get_entry-live, update_entry-get_entry, delete_entry-get_entry,
}
use acorde.Crdt.Tests.{
  left_tokens, right, right-HasTime, empty-HasTime, sample_uuids, left, right_tokens, work,
  left-IsReplica, left-HasTime, sample,
}

-- the note of the left replica
abbrev pub note : LwwElement
note = record {
  entry = record {
    id = 7;
    type = codes "note";
    content = 1 ∷ 2 ∷ [];
    tags = [];
    created_at = 1;
    updated_at = 1;
    deleted = false;
  };
  timestamp = 1;
  deleted = false;
}

pub left_note : get left.entries.elements 7 ≡ some note
unfolding sample
left_note = refl

abbrev pub read_note : Entry
read_note = tagged left 7 note.entry

pub left_read : get_entry left 7 ≡ ok read_note
left_read = get_entry-live left 7 note left_note refl

pub right_tokens-Fresh : Fresh right_tokens (tag_set left 7)
unfolding sample OrSet.add_with_token
right_tokens-Fresh i tag = ground arith

abbrev pub home : Text
home = codes "home"

update_entry-get_entry_example :
    (r' : Replica) × (new : Entry) × (update_entry right_tokens left 7 none (some (home ∷ []))
      ≡ ok r')
    × (new.content ≡ new_content read_note.content none)
    × (new.type ≡ read_note.type)
    × (new.created_at ≡ read_note.created_at)
    × (new.updated_at ≡ left.clock.time + 1)
    × TagsAfter (some (home ∷ [])) read_note.tags new.tags
    × ((j : Uuid) → get_entry r' j ≡ (if 7 == j then ok new else get_entry left j))
update_entry-get_entry_example =
    update_entry-get_entry right_tokens left left-IsReplica left-HasTime 7 none (some (home ∷ []))
      read_note left_read right_tokens-Fresh

delete_entry-get_entry_example :
    (r' : Replica) × (delete_entry left 7 ≡ ok r')
    × ((j : Uuid) → get_entry r' j ≡ (if 7 == j then err (is_deleted 7) else get_entry left j))
delete_entry-get_entry_example =
    delete_entry-get_entry left left-IsReplica left-HasTime 7 note left_note

pub untagged : get left.tags 9 ≡ none
unfolding sample
untagged = refl

abbrev pub shared : Acl
shared = record {
  entry_id = 7;
  owner = codes "a";
  readers = codes "b" ∷ [];
  writers = [];
  public = false;
  timestamp = 0;
}

-- the sample replicas come about by adds
left_run : Run left
left_run =
    Run.added left_tokens 7 (codes "note") (1 ∷ 2 ∷ []) (work ∷ [])
      (Run.created (new_clock_with_time 0)) empty-HasTime

right_run : Run right
right_run =
    Run.added right_tokens 8 (codes "log") (3 ∷ []) [] (Run.created (new_clock_with_time 0))
      empty-HasTime

merged-HasTime : HasTime (merge left right)
unfolding merge sample update Acls.latest_element Acls.latest_acl Acls.max_timestamp
    Lww.all_elements
merged-HasTime = omega arith

Run-IsReplica_example : IsReplica (set_acl (merge left right) shared)
Run-IsReplica_example = Run-IsReplica (set_acl (merge left right) shared) (
    Run.listed shared (Run.merged left_run right_run left-HasTime right-HasTime) merged-HasTime
      (omega arith))
